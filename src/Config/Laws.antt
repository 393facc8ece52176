-- ===== src/Config/Laws.antt =====
-- The links of a file are symmetric, and the loop over its lines ends.
use network_layer_full.Base.{
  ℕ, zero, suc, ◌+◌, ◌-◌, ◌≤◌, ◌<◌, ◌≡◌, refl, subst, Bool, true, false, ◌&&◌, Option, none, some,
  List, [], ◌∷◌, arith, if◌then◌else◌, leb, ◌>>=◌, length, get_elem?, set,
}
use network_layer_full.Base.Int.{ℤ}
use network_layer_full.Topology.{max_hosts, Host, Links, update}
use network_layer_full.Topology.Laws.{IsSymmetric}
use network_layer_full.Config.{
  Line, new_line, node_header, link_header, end_text, starts, same, skip_to_digit, copy_until,
  end_line_char, chartoint, to_int, strtol_of, store_link, processlinkline, processhostline,
  readnodes, readlinks, Topo, sections, readall, readconfig,
}

-- What holds of a result, if there is one.
abbrev pub Post {ℓ κ} : {A : Type ℓ} → (A → Type κ) → Option A → Type κ
Post P none = Unit
Post P (some a) = P a

bind-Post {ℓ κ μ ν} :
    {A : Type ℓ} {B : Type κ} (P : A → Type μ) (Q : B → Type ν) (o : Option A) (f : A → Option B)
    → Post P o
    → ((a : A) → P a → Post Q (f a))
    → Post Q (o >>= f)
bind-Post P Q none f h k = tt
bind-Post P Q (some a) f h k = k a h

pub bind-any {ℓ κ μ} :
    {A : Type ℓ} {B : Type κ} (Q : B → Type μ) (o : Option A) (f : A → Option B)
    → ((a : A) → Post Q (f a))
    → Post Q (o >>= f)
bind-any Q none f k = tt
bind-any Q (some a) f k = k a

Post-weaken {ℓ κ μ} :
    {A : Type ℓ} (P : A → Type κ) (Q : A → Type μ) (o : Option A)
    → ((a : A) → P a → Q a)
    → Post P o
    → Post Q o
Post-weaken P Q none f h = tt
Post-weaken P Q (some a) f h = f a h

if-Post {ℓ κ} :
    {A : Type ℓ} (P : A → Type κ) (b : Bool) (x y : Option A)
    → Post P x
    → Post P y
    → Post P (if b then x else y)
if-Post P true x y hx hy = hx
if-Post P false x y hx hy = hy

store_link-IsSymmetric :
    (links : Links) (first second : ℕ) (mtu : ℤ)
    → IsSymmetric links
    → Post IsSymmetric (store_link links first second mtu)
unfolding store_link
store_link-IsSymmetric links first second mtu h =
    if-Post IsSymmetric
      (leb 1 first && leb first max_hosts && (leb 1 second && leb second max_hosts))
      (some (update (update links (second - 1) (first - 1) mtu) (first - 1) (second - 1) mtu)) none
      (λ i j. ground (arith, h i j)) tt

processlinkline-IsSymmetric :
    (line : Line) (links : Links)
    → IsSymmetric links
    → Post IsSymmetric (processlinkline line links)
unfolding processlinkline
processlinkline-IsSymmetric line links h =
    bind-any IsSymmetric (skip_to_digit line.text) _ (λ first.
      bind-any IsSymmetric (skip_to_digit first.1) _ (λ second.
        bind-any IsSymmetric (skip_to_digit second.1) _ (λ digit.
          bind-any IsSymmetric (copy_until end_line_char digit.1) _ (λ copied.
            bind-any IsSymmetric (strtol_of 5 (digit.0 ∷ copied.0) line.junk) _ (λ mtu.
              store_link-IsSymmetric links (chartoint first.0) (chartoint second.0) (to_int mtu)
                h)))))

abbrev SymmetricLinks : Links × List Line → Type 0
SymmetricLinks r = IsSymmetric r.0

readlinks-IsSymmetric :
    (lines : List Line) (links : Links)
    → IsSymmetric links
    → Post SymmetricLinks (readlinks lines links)
unfolding readlinks
readlinks-IsSymmetric [] links h = h
readlinks-IsSymmetric (line ∷ lines) links h =
    if-Post SymmetricLinks (starts line.text end_text) (some (links, lines)) _ h (
      if-Post SymmetricLinks (same line.text (new_line ∷ [])) (readlinks lines links) _
        (readlinks-IsSymmetric lines links h)
        (bind-Post IsSymmetric SymmetricLinks (processlinkline line links) (readlinks lines)
          (processlinkline-IsSymmetric line links h) (readlinks-IsSymmetric lines)))

abbrev SectionsLeft : Topo × List Line → Type 0
SectionsLeft r = IsSymmetric r.0.0

sections-IsSymmetric :
    (inet_pton : List ℕ → Option ℕ) (line : Line) (lines : List Line) (links : Links)
    (hosts : List Host)
    → IsSymmetric links
    → Post SectionsLeft (sections inet_pton line lines links hosts)
unfolding sections
sections-IsSymmetric inet_pton line lines links hosts h =
    bind-any SectionsLeft
      (if starts line.text node_header
        then readnodes inet_pton lines hosts 0
        else some (hosts, lines))
      _
      (λ nodes.
        bind-Post SymmetricLinks SectionsLeft (readlinks nodes.1 links) _
          (readlinks-IsSymmetric nodes.1 links h) (λ r hr. hr))

abbrev SymmetricTopo : Topo → Type 0
SymmetricTopo t = IsSymmetric t.0

readall-IsSymmetric :
    (fuel : ℕ) (inet_pton : List ℕ → Option ℕ) (lines : List Line) (links : Links)
    (hosts : List Host)
    → IsSymmetric links
    → Post SymmetricTopo (readall fuel inet_pton lines links hosts)
unfolding readall
readall-IsSymmetric zero inet_pton lines links hosts h = tt
readall-IsSymmetric (suc fuel) inet_pton [] links hosts h = h
readall-IsSymmetric (suc fuel) inet_pton (line ∷ lines) links hosts h =
    if-Post SymmetricTopo (same line.text end_text) (some (links, hosts)) _ h (
      if-Post SymmetricTopo (same line.text (new_line ∷ []))
        (readall fuel inet_pton lines links hosts) _
        (readall-IsSymmetric fuel inet_pton lines links hosts h)
        (bind-Post SectionsLeft SymmetricTopo (sections inet_pton line lines links hosts) _
          (sections-IsSymmetric inet_pton line lines links hosts h)
          (λ r hr. readall-IsSymmetric fuel inet_pton r.1 r.0.0 r.0.1 hr)))

-- Whatever lines a file has, and whatever is on the stack: if every link has the same MTU in both
-- directions before, and the reading of the file stays inside the arrays, then so it is after it.
pub readconfig-IsSymmetric :
    (inet_pton : List ℕ → Option ℕ) (file : Option (List Line)) (links links' : Links)
    (hosts hosts' : List Host)
    → IsSymmetric links
    → readconfig inet_pton file links hosts ≡ some (links', hosts')
    → IsSymmetric links'
unfolding readconfig
readconfig-IsSymmetric inet_pton none links links' hosts hosts' h e = subst (Post SymmetricTopo) e h
readconfig-IsSymmetric inet_pton (some file) links links' hosts hosts' h e =
    subst (Post SymmetricTopo) e
      (readall-IsSymmetric (suc (length file)) inet_pton file links hosts h)

-- Neither section leaves more lines than it got.
readnodes-shorter :
    (inet_pton : List ℕ → Option ℕ) (lines : List Line) (hosts : List Host) (num : ℕ)
    → Post
        (λ (r : List Host × List Line). length r.1 ≤ length lines)
        (readnodes inet_pton lines hosts num)
unfolding readnodes
readnodes-shorter inet_pton [] hosts num = omega arith
readnodes-shorter inet_pton (line ∷ lines) hosts num =
    let Q : List Host × List Line → Type 0 = λ r. length r.1 ≤ suc (length lines) in
    let weaker : (hs : List Host) (k : ℕ) → Post Q (readnodes inet_pton lines hs k) = λ hs k.
      Post-weaken _ Q (readnodes inet_pton lines hs k) (λ r le. omega arith)
        (readnodes-shorter inet_pton lines hs k) in
    if-Post Q (starts line.text link_header) (some (hosts, lines)) _ (omega arith) (
      if-Post Q (same line.text (new_line ∷ [])) (readnodes inet_pton lines hosts num) _
        (weaker hosts num)
        (bind-any Q (get_elem? hosts num) _ (λ old.
          bind-any Q (processhostline inet_pton line old) _
            (λ host. weaker (set hosts num host) (num + 1)))))

readlinks-shorter :
    (lines : List Line) (links : Links)
    → Post (λ (r : Links × List Line). length r.1 ≤ length lines) (readlinks lines links)
unfolding readlinks
readlinks-shorter [] links = omega arith
readlinks-shorter (line ∷ lines) links =
    let Q : Links × List Line → Type 0 = λ r. length r.1 ≤ suc (length lines) in
    let weaker : (l : Links) → Post Q (readlinks lines l) =
      λ l. Post-weaken _ Q (readlinks lines l) (λ r le. omega arith) (readlinks-shorter lines l) in
    if-Post Q (starts line.text end_text) (some (links, lines)) _ (omega arith) (
      if-Post Q (same line.text (new_line ∷ [])) (readlinks lines links) _ (weaker links)
        (bind-any Q (processlinkline line links) _ weaker))

sections-shorter :
    (inet_pton : List ℕ → Option ℕ) (line : Line) (lines : List Line) (links : Links)
    (hosts : List Host)
    → Post
        (λ (r : Topo × List Line). length r.1 ≤ length lines)
        (sections inet_pton line lines links hosts)
unfolding sections
sections-shorter inet_pton line lines links hosts =
    let Q : Topo × List Line → Type 0 = λ r. length r.1 ≤ length lines in
    bind-Post (λ (r : List Host × List Line). length r.1 ≤ length lines) Q
      (if starts line.text node_header
        then readnodes inet_pton lines hosts 0
        else some (hosts, lines))
      _
      (if-Post _ (starts line.text node_header) (readnodes inet_pton lines hosts 0)
        (some (hosts, lines)) (readnodes-shorter inet_pton lines hosts 0) (omega arith))
      (λ nodes le.
        bind-Post (λ (r : Links × List Line). length r.1 ≤ length nodes.1) Q
          (readlinks nodes.1 links) _ (readlinks-shorter nodes.1 links) (λ r le'. omega arith))

bind-congr {ℓ κ μ} :
    {A : Type ℓ} {B : Type κ} (P : A → Type μ) (o : Option A) (f g : A → Option B)
    → Post P o
    → ((a : A) → P a → f a ≡ g a)
    → (o >>= f) ≡ (o >>= g)
bind-congr P none f g h e = refl
bind-congr P (some a) f g h e = e a h

-- With more rounds than there are lines, the result does not depend on their number: the loop ends
-- by itself.
pub readall-enough :
    (fuel fuel' : ℕ) (inet_pton : List ℕ → Option ℕ) (lines : List Line) (links : Links)
    (hosts : List Host)
    → length lines < fuel
    → length lines < fuel'
    → readall fuel inet_pton lines links hosts ≡ readall fuel' inet_pton lines links hosts
unfolding readall
readall-enough zero fuel' inet_pton lines links hosts h h' = absurd (omega arith)
readall-enough (suc fuel) zero inet_pton lines links hosts h h' = absurd (omega arith)
readall-enough (suc fuel) (suc fuel') inet_pton [] links hosts h h' = refl
readall-enough (suc fuel) (suc fuel') inet_pton (line ∷ lines) links hosts h h' =
    let blank = readall-enough fuel fuel' inet_pton lines links hosts (omega arith) (omega arith) in
    let more =
      bind-congr (λ (r : Topo × List Line). length r.1 ≤ length lines)
        (sections inet_pton line lines links hosts) (λ r. readall fuel inet_pton r.1 r.0.0 r.0.1)
        (λ r. readall fuel' inet_pton r.1 r.0.0 r.0.1)
        (sections-shorter inet_pton line lines links hosts)
        (λ r le. readall-enough fuel fuel' inet_pton r.1 r.0.0 r.0.1 (omega arith) (omega arith)) in
    rw (blank, more)
