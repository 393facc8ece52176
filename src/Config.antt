-- ===== src/Config.antt =====
-- config/config.c: the hosts and the links that a topology file names.
pub mod Laws
pub mod Decimal
pub mod LinkLines
pub mod HostLines
pub mod RoundTrip
pub mod AnyStack
pub mod Stack
use network_layer_full.Base.{
  ℕ, zero, suc, ◌+◌, ◌-◌, ◌*◌, ◌%◌, ◌^◌, min, Bool, true, false, ◌&&◌, Option, none, some, List, [],
  ◌∷◌, ◌++◌, if◌then◌else◌, ltb, leb, ◌==◌, ◌>>=◌, length, take, get_elem?, set, u16,
}
use network_layer_full.Base.Int.{ℤ, pos, negsuc}
use network_layer_full.Topology.{max_hosts, Host, Links, update}

-- A line as `getline` gives it to one process, without the NUL, and the bytes that this process
-- has on its stack behind the characters that it copies to `mtu_string` or `port`, which get no
-- NUL. The text comes from the file, the bytes do not.
pub record Line : Type 0 where
  pub text : List ℕ
  pub junk : List ℕ

abbrev pub is_digit : ℕ → Bool
is_digit c = leb 48 c && leb c 57

abbrev pub new_line : ℕ
new_line = 10

abbrev pub comma_char : ℕ
comma_char = 44

abbrev pub end_line_char : ℕ
end_line_char = 59

-- "Nos"
abbrev pub node_header : List ℕ
node_header = 78 ∷ 111 ∷ 115 ∷ []

-- "Enlaces"
abbrev pub link_header : List ℕ
link_header = 69 ∷ 110 ∷ 108 ∷ 97 ∷ 99 ∷ 101 ∷ 115 ∷ []

-- "Fim"
abbrev pub end_text : List ℕ
end_text = 70 ∷ 105 ∷ 109 ∷ []

-- strncmp(line, s, strlen(s)) == 0
abbrev pub starts : List ℕ → List ℕ → Bool
starts line [] = true
starts [] (c ∷ s) = false
starts (b ∷ line) (c ∷ s) = (b == c) && starts line s

-- strcmp(line, s) == 0
abbrev pub same : List ℕ → List ℕ → Bool
same line s = starts line s && (length line == length s)

-- The first digit and what follows it; `none` is a walk past the end of the line.
unfoldable pub skip_to_digit : List ℕ → Option (ℕ × List ℕ)
skip_to_digit [] = none
skip_to_digit (c ∷ cs) = if is_digit c then some (c, cs) else skip_to_digit cs

-- The characters before `stop`, and the line from it on.
unfoldable pub copy_until : ℕ → List ℕ → Option (List ℕ × List ℕ)
copy_until stop [] = none
copy_until stop (c ∷ cs) =
    let rest = copy_until stop cs in
    if c == stop then some ([], c ∷ cs) else (do (copied, r) ← rest; some (c ∷ copied, r))

unfoldable pub chartoint : ℕ → ℕ
chartoint c = c - 48

unfoldable pub digits : List ℕ → ℕ → ℕ
digits [] n = n
digits (c ∷ cs) n = let more = digits cs (10 * n + (c - 48)) in if is_digit c then more else n

-- strtol(p, NULL, 10), where `p` points to a digit
abbrev pub strtol : List ℕ → ℕ
strtol p = min (digits p 0) (2 ^ 63 - 1)

abbrev pub has_stop : List ℕ → Bool
has_stop [] = false
has_stop (c ∷ cs) = if is_digit c then has_stop cs else true

-- `strtol` of an array of `size` bytes, which holds the copied characters and then what was there
-- before; `none` is a copy past the array, or a read past it where all its bytes are digits.
unfoldable pub strtol_of : ℕ → List ℕ → List ℕ → Option ℕ
unfolding digits
strtol_of size copied junk =
    if leb (length copied) size && has_stop (take size (copied ++ junk))
    then some (strtol (copied ++ junk))
    else none

-- A `long` as an `int`.
abbrev pub to_int : ℕ → ℤ
to_int n = if ltb (n % 2 ^ 32) (2 ^ 31) then pos (n % 2 ^ 32) else negsuc (2 ^ 32 - 1 - n % 2 ^ 32)

-- The two stores, the right one first; `none` is a store outside of the matrix.
unfoldable pub store_link : Links → ℕ → ℕ → ℤ → Option Links
store_link links first second mtu =
    if leb 1 first && leb first max_hosts && (leb 1 second && leb second max_hosts)
    then some (update (update links (second - 1) (first - 1) mtu) (first - 1) (second - 1) mtu)
    else none

-- `mtu_string` has five bytes.
unfoldable pub processlinkline : Line → Links → Option Links
unfolding skip_to_digit copy_until chartoint strtol_of store_link
processlinkline line links = do
  (first, aux) ← skip_to_digit line.text
  (second, aux) ← skip_to_digit aux
  (digit, aux) ← skip_to_digit aux
  (copied, aux) ← copy_until end_line_char aux
  mtu ← strtol_of 5 (digit ∷ copied) line.junk
  store_link links (chartoint first) (chartoint second) (to_int mtu)

-- An address that `inet_pton` does not read leaves the field as it is.
abbrev pub address : Option ℕ → ℕ → ℕ
address none old = old
address (some ip) old = ip

-- `ip` has 16 bytes with the NUL, and `port` has six.
unfoldable pub processhostline : (List ℕ → Option ℕ) → Line → Host → Option Host
unfolding skip_to_digit copy_until chartoint strtol_of
processhostline inet_pton line ret = do
  (num, aux) ← skip_to_digit line.text
  (digit, aux) ← skip_to_digit aux
  (copied, aux) ← copy_until comma_char aux
  ip ← if leb (length (digit ∷ copied)) 15 then some (digit ∷ copied) else none
  (digit, aux) ← skip_to_digit aux
  (copied, aux) ← copy_until end_line_char aux
  port ← strtol_of 6 (digit ∷ copied) line.junk
  some (record {
    num = chartoint num;
    port = u16 port;
    ip_addr = address (inet_pton ip) ret.ip_addr;
  })

-- The hosts and the lines that are left. A store behind the array is `none`.
unfoldable pub readnodes :
    (List ℕ → Option ℕ) → List Line → List Host → ℕ → Option (List Host × List Line)
unfolding processhostline
readnodes inet_pton [] hosts num = some (hosts, [])
readnodes inet_pton (line ∷ lines) hosts num =
    if starts line.text link_header
    then some (hosts, lines)
    else (if same line.text (new_line ∷ []) then readnodes inet_pton lines hosts num else (do
      old ← get_elem? hosts num
      host ← processhostline inet_pton line old
      readnodes inet_pton lines (set hosts num host) (num + 1)))

unfoldable pub readlinks : List Line → Links → Option (Links × List Line)
unfolding processlinkline
readlinks [] links = some (links, [])
readlinks (line ∷ lines) links =
    if starts line.text end_text
    then some (links, lines)
    else (if same line.text (new_line ∷ [])
        then readlinks lines links
        else (do links ← processlinkline line links; readlinks lines links))

-- What is read: the links and the hosts.
abbrev pub Topo : Type 0
Topo = Links × List Host

-- From a line on that is not blank: "Nos" or not, the links follow.
unfoldable pub sections :
    (List ℕ → Option ℕ) → Line → List Line → Links → List Host → Option (Topo × List Line)
unfolding readnodes readlinks
sections inet_pton line lines links hosts = do
  (hosts, lines) ←
      (if starts line.text node_header
        then readnodes inet_pton lines hosts 0
        else some (hosts, lines))
  (links, lines) ← readlinks lines links
  some ((links, hosts), lines)

-- Every round takes a line, so one round more than there are lines is enough.
unfoldable pub readall : ℕ → (List ℕ → Option ℕ) → List Line → Links → List Host → Option Topo
unfolding sections
readall zero inet_pton lines links hosts = none
readall (suc fuel) inet_pton [] links hosts = some (links, hosts)
readall (suc fuel) inet_pton (line ∷ lines) links hosts =
    let blank = readall fuel inet_pton lines links hosts in
    if same line.text end_text
    then some (links, hosts)
    else (if same line.text (new_line ∷ []) then blank else (do
      ((links, hosts), lines) ← sections inet_pton line lines links hosts
      readall fuel inet_pton lines links hosts))

-- The lines of a file as one process reads them, the line `i` and those after it: `stack i` are
-- the bytes that it has behind the characters copied from that line.
unfoldable pub lines_of : (ℕ → List ℕ) → ℕ → List (List ℕ) → List Line
lines_of stack i [] = []
lines_of stack i (text ∷ texts) =
    record { text = text; junk = stack i } ∷ lines_of stack (i + 1) texts

unfoldable pub file_lines : (ℕ → List ℕ) → Option (List (List ℕ)) → Option (List Line)
unfolding lines_of
file_lines stack none = none
file_lines stack (some texts) = some (lines_of stack 0 texts)

-- `none` for the file: it cannot be opened.
unfoldable pub readconfig :
    (List ℕ → Option ℕ) → Option (List Line) → Links → List Host → Option Topo
unfolding readall
readconfig inet_pton none links hosts = some (links, hosts)
readconfig inet_pton (some file) links hosts =
    readall (suc (length file)) inet_pton file links hosts
