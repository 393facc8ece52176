-- ===== src/Config/RoundTrip.antt =====
-- A topology file is read as what it was written from.
use network_layer_full.Base.{
  ℕ, zero, suc, ◌+◌, ◌≤◌, ◌<◌, ◌≡◌, refl, sym, ap, ◌∙◌, Option, some, List, [], ◌∷◌, ◌++◌,
  append_assoc, arith, All, length, length-append, drop, get_elem?, get_elem?-append_right, set,
  set-append_right,
}
use network_layer_full.Topology.{Host, Links}
use network_layer_full.Config.{
  Line, node_header, link_header, end_text, readnodes, readlinks, sections, readall, readconfig,
}
use network_layer_full.Config.LinkLines.{
  LinkEntry, IsLink, link_line, connect, processlinkline-link_line,
}
use network_layer_full.Config.HostLines.{
  HostEntry, IsHost, host_line, host_of, processhostline-host_line,
}

abbrev pub header : List ℕ → Line
header text = record { text = text ++ (10 ∷ []); junk = [] }

abbrev pub last_line : Line
last_line = record { text = end_text; junk = [] }

abbrev pub blank : Line
blank = record { text = 10 ∷ []; junk = [] }

-- A blank line between each two lines of hosts, and none behind the last.
abbrev pub host_lines : List HostEntry → List Line → List Line
host_lines [] rest = rest
host_lines (h ∷ []) rest = host_line h ∷ rest
host_lines (h ∷ next ∷ hs) rest = host_line h ∷ blank ∷ host_lines (next ∷ hs) rest

abbrev pub link_lines : List LinkEntry → List Line → List Line
link_lines [] rest = rest
link_lines (l ∷ []) rest = link_line l ∷ rest
link_lines (l ∷ next ∷ ls) rest = link_line l ∷ blank ∷ link_lines (next ∷ ls) rest

-- The layout of config/topology.cnf.
unfoldable pub topology_file : List HostEntry → List LinkEntry → List Line
topology_file hs ls =
    header node_header ∷ host_lines hs (header link_header ∷ link_lines ls (last_line ∷ []))

abbrev pub hosts_of : List HostEntry → List Host
hosts_of [] = []
hosts_of (h ∷ hs) = host_of h ∷ hosts_of hs

abbrev pub connect_all : Links → List LinkEntry → Links
connect_all links [] = links
connect_all links (l ∷ ls) = connect_all (connect links l) ls

-- The line of a host fills the next entry of the table.
readnodes-host_line :
    (inet_pton : List ℕ → Option ℕ) (e : HostEntry) (rest : List Line) (old : Host)
    (before table : List Host)
    → IsHost inet_pton e
    → readnodes inet_pton (host_line e ∷ rest) (before ++ (old ∷ table)) (length before)
      ≡ readnodes inet_pton rest
          ((before ++ (host_of e ∷ [])) ++ table)
          (length (before ++ (host_of e ∷ [])))
unfolding readnodes host_line
readnodes-host_line inet_pton e rest old before table h =
    let at : length before + 0 ≡ length before = omega arith in
    let there : get_elem? (before ++ (old ∷ table)) (length before) ≡ some old =
      ap (get_elem? (before ++ (old ∷ table))) (sym at)
      ∙ get_elem?-append_right before (old ∷ table) 0 in
    let put : set (before ++ (old ∷ table)) (length before) (host_of e)
        ≡ (before ++ (host_of e ∷ [])) ++ table =
      ap (λ i. set (before ++ (old ∷ table)) i (host_of e)) (sym at)
      ∙ set-append_right before (old ∷ table) 0 (host_of e)
      ∙ sym (append_assoc before (host_of e ∷ []) table) in
    let next : length before + 1 ≡ length (before ++ (host_of e ∷ [])) =
      omega (arith, length-append before (host_of e ∷ [])) in
    rw (there, processhostline-host_line inet_pton e old h, put, next)

readnodes-host_lines :
    (inet_pton : List ℕ → Option ℕ) (hs : List HostEntry) (rest : List Line)
    (before table : List Host)
    → All (IsHost inet_pton) hs
    → length hs ≤ length table
    → readnodes inet_pton
        (host_lines hs (header link_header ∷ rest))
        (before ++ table)
        (length before)
      ≡ some (before ++ (hosts_of hs ++ drop (length hs) table), rest)
unfolding readnodes
readnodes-host_lines inet_pton [] rest before table h fits = refl
readnodes-host_lines inet_pton (e ∷ hs) rest before [] h fits = absurd (omega arith)
readnodes-host_lines inet_pton (e ∷ []) rest before (old ∷ table) h fits =
    readnodes-host_line inet_pton e (header link_header ∷ rest) old before table h.0
    ∙ rw (append_assoc before (host_of e ∷ []) table)
readnodes-host_lines inet_pton (e ∷ next ∷ hs) rest before (old ∷ table) h fits =
    let more = host_lines (next ∷ hs) (header link_header ∷ rest) in
    let left = hosts_of (next ∷ hs) ++ drop (length (next ∷ hs)) table in
    readnodes-host_line inet_pton e (blank ∷ more) old before table h.0
    ∙ readnodes-host_lines inet_pton (next ∷ hs) rest (before ++ (host_of e ∷ [])) table h.1
        (omega arith)
    ∙ rw (append_assoc before (host_of e ∷ []) left)

readlinks-link_lines :
    (ls : List LinkEntry) (rest : List Line) (links : Links)
    → All IsLink ls
    → readlinks (link_lines ls (last_line ∷ rest)) links ≡ some (connect_all links ls, rest)
unfolding readlinks link_line
readlinks-link_lines [] rest links h = refl
readlinks-link_lines (l ∷ []) rest links h = rw (processlinkline-link_line l links h.0)
readlinks-link_lines (l ∷ next ∷ ls) rest links h = rw (
  processlinkline-link_line l links h.0,
  readlinks-link_lines (next ∷ ls) rest (connect links l) h.1,
)

readall-end :
    (fuel : ℕ) (inet_pton : List ℕ → Option ℕ) (links : Links) (hosts : List Host)
    → 0 < fuel
    → readall fuel inet_pton [] links hosts ≡ some (links, hosts)
unfolding readall
readall-end zero inet_pton links hosts h = absurd (omega arith)
readall-end (suc fuel) inet_pton links hosts h = refl

length-link_lines :
    (ls : List LinkEntry) (rest : List Line) → length rest ≤ length (link_lines ls rest)
length-link_lines [] rest = omega arith
length-link_lines (l ∷ []) rest = omega arith
length-link_lines (l ∷ next ∷ ls) rest = omega (arith, length-link_lines (next ∷ ls) rest)

length-host_lines :
    (hs : List HostEntry) (rest : List Line) → length rest ≤ length (host_lines hs rest)
length-host_lines [] rest = omega arith
length-host_lines (h ∷ []) rest = omega arith
length-host_lines (h ∷ next ∷ hs) rest = omega (arith, length-host_lines (next ∷ hs) rest)

-- A topology file that is written for some hosts, as many as the table has entries or fewer, and
-- some links, in the layout of config/topology.cnf (three lines of headings and end, and a blank
-- line between each two hosts and each two links), is read as these: the hosts are the first of
-- the table, in order, with their numbers, ports and the addresses that `inet_pton` reads, and
-- the matrix gets for each link its MTU in both directions, of the links between the same two
-- hosts the last one's. The numbers have one digit, for the links from 1 to 6, the MTUs are below
-- 10000, so that `strtol` stays inside of `mtu_string`, the ports below 2^16, and the first byte
-- that the stack holds behind each number is no digit.
pub readconfig-topology_file :
    (inet_pton : List ℕ → Option ℕ) (hs : List HostEntry) (ls : List LinkEntry) (links : Links)
    (table : List Host)
    → All (IsHost inet_pton) hs
    → All IsLink ls
    → length hs ≤ length table
    → readconfig inet_pton (some (topology_file hs ls)) links table
      ≡ some (connect_all links ls, hosts_of hs ++ drop (length hs) table)
unfolding readconfig topology_file readall sections
readconfig-topology_file inet_pton hs ls links table hosts_ok links_ok fits =
    let behind = header link_header ∷ link_lines ls (last_line ∷ []) in
    let nodes =
      readnodes-host_lines inet_pton hs (link_lines ls (last_line ∷ [])) [] table hosts_ok fits in
    let conns = readlinks-link_lines ls [] links links_ok in
    let len : 0 < length (host_lines hs behind) =
      omega (arith, length-host_lines hs behind, length-link_lines ls (last_line ∷ [])) in
    rw (nodes, conns)
      (readall-end (suc (length (host_lines hs behind))) inet_pton (connect_all links ls)
        (hosts_of hs ++ drop (length hs) table) (omega arith))
