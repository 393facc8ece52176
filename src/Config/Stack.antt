-- ===== src/Config/Stack.antt =====
-- What the stack holds behind the characters that are copied from a line does not matter to
-- config/config.c where it does not start with a digit.
use network_layer_full.Base.{
  ℕ, zero, suc, ◌+◌, ◌≡◌, refl, ap, subst, Bool, true, false, Option, none, some, List, [], ◌∷◌,
  ◌>>=◌, if◌then◌else◌, length, get_elem?, set,
}
use network_layer_full.Topology.{Host, Links}
use network_layer_full.Config.{
  Line, new_line, starts, same, link_header, end_text, node_header, processlinkline,
  processhostline, readnodes, readlinks, sections, readall, lines_of, file_lines, readconfig,
}
use network_layer_full.Config.Decimal.{NoDigit}
use network_layer_full.Config.AnyStack.{AlikeLine, processlinkline-same, processhostline-same}

-- Behind no copied characters the process finds a digit.
abbrev pub Ends : (ℕ → List ℕ) → Type 0
Ends stack = (i : ℕ) → NoDigit (stack i)

abbrev AllSame : List Line → List Line → Type 0
AllSame [] [] = Unit
AllSame [] (m ∷ ms) = ⊥
AllSame (l ∷ ls) [] = ⊥
AllSame (l ∷ ls) (m ∷ ms) = AlikeLine l m × AllSame ls ms

-- The same value, and lines that are the same still to read.
abbrev Agree : {A : Type 0} → Option (A × List Line) → Option (A × List Line) → Type 0
Agree none none = Unit
Agree none (some b) = ⊥
Agree (some a) none = ⊥
Agree (some (a, ls)) (some (b, ms)) = (a ≡ b) × AllSame ls ms

bind-Agree :
    {A B : Type 0} (o o' : Option A) (f g : A → Option (B × List Line))
    → o ≡ o'
    → ((a : A) → Agree (f a) (g a))
    → Agree (o >>= f) (o' >>= g)
bind-Agree none o' f g e h = subst (λ o'. Agree (none >>= f) (o' >>= g)) e tt
bind-Agree (some a) o' f g e h = subst (λ o'. Agree (some a >>= f) (o' >>= g)) e (h a)

if-Agree :
    {A : Type 0} (b b' : Bool) (x x' y y' : Option (A × List Line))
    → b ≡ b'
    → Agree x x'
    → Agree y y'
    → Agree (if b then x else y) (if b' then x' else y')
if-Agree true b' x x' y y' e h k = subst (λ c. Agree x (if c then x' else y')) e h
if-Agree false b' x x' y y' e h k = subst (λ c. Agree y (if c then x' else y')) e k

readnodes-Agree :
    (inet_pton : List ℕ → Option ℕ) (ls ms : List Line) (hosts : List Host) (num : ℕ)
    → AllSame ls ms
    → Agree (readnodes inet_pton ls hosts num) (readnodes inet_pton ms hosts num)
unfolding readnodes
readnodes-Agree inet_pton [] [] hosts num h = (refl, tt)
readnodes-Agree inet_pton [] (m ∷ ms) hosts num h = absurd h
readnodes-Agree inet_pton (l ∷ ls) [] hosts num h = absurd h
readnodes-Agree inet_pton (l ∷ ls) (m ∷ ms) hosts num (s, h) =
    if-Agree (starts l.text link_header) (starts m.text link_header) _ _ _ _
      (ap (λ t. starts t link_header) s.text) (refl, h)
      (if-Agree (same l.text (new_line ∷ [])) (same m.text (new_line ∷ [])) _ _ _ _
        (ap (λ t. same t (new_line ∷ [])) s.text) (readnodes-Agree inet_pton ls ms hosts num h)
        (bind-Agree (get_elem? hosts num) (get_elem? hosts num) _ _ refl (λ old.
          bind-Agree (processhostline inet_pton l old) (processhostline inet_pton m old) _ _
            (processhostline-same inet_pton l m old s)
            (λ host. readnodes-Agree inet_pton ls ms (set hosts num host) (num + 1) h))))

readlinks-Agree :
    (ls ms : List Line) (links : Links)
    → AllSame ls ms
    → Agree (readlinks ls links) (readlinks ms links)
unfolding readlinks
readlinks-Agree [] [] links h = (refl, tt)
readlinks-Agree [] (m ∷ ms) links h = absurd h
readlinks-Agree (l ∷ ls) [] links h = absurd h
readlinks-Agree (l ∷ ls) (m ∷ ms) links (s, h) =
    if-Agree (starts l.text end_text) (starts m.text end_text) _ _ _ _
      (ap (λ t. starts t end_text) s.text) (refl, h)
      (if-Agree (same l.text (new_line ∷ [])) (same m.text (new_line ∷ [])) _ _ _ _
        (ap (λ t. same t (new_line ∷ [])) s.text) (readlinks-Agree ls ms links h)
        (bind-Agree (processlinkline l links) (processlinkline m links) _ _
          (processlinkline-same l m links s) (λ links'. readlinks-Agree ls ms links' h)))

-- A continuation takes what is read and the lines that are left.
then-Agree :
    {A B : Type 0} (o o' : Option (A × List Line)) (f g : A × List Line → Option (B × List Line))
    → Agree o o'
    → ((a : A) (ls ms : List Line) → AllSame ls ms → Agree (f (a, ls)) (g (a, ms)))
    → Agree (o >>= f) (o' >>= g)
then-Agree none none f g h k = tt
then-Agree none (some b) f g h k = absurd h
then-Agree (some a) none f g h k = absurd h
then-Agree (some (a, ls)) (some (b, ms)) f g (e, h) k =
    subst (λ c. Agree (f (a, ls)) (g (c, ms))) e (k a ls ms h)

sections-Agree :
    (inet_pton : List ℕ → Option ℕ) (l m : Line) (ls ms : List Line) (links : Links)
    (hosts : List Host)
    → AlikeLine l m
    → AllSame ls ms
    → Agree (sections inet_pton l ls links hosts) (sections inet_pton m ms links hosts)
unfolding sections
sections-Agree inet_pton l m ls ms links hosts s h =
    then-Agree _ _ _ _
      (if-Agree (starts l.text node_header) (starts m.text node_header) _ _ _ _
        (ap (λ t. starts t node_header) s.text) (readnodes-Agree inet_pton ls ms hosts 0 h)
        (refl, h))
      (λ hosts' ls' ms' h'.
        then-Agree (readlinks ls' links) (readlinks ms' links) _ _
          (readlinks-Agree ls' ms' links h') (λ links' ls'' ms'' h''. (refl, h'')))

then-same :
    {A B : Type 0} (o o' : Option (A × List Line)) (f g : A × List Line → Option B)
    → Agree o o'
    → ((a : A) (ls ms : List Line) → AllSame ls ms → f (a, ls) ≡ g (a, ms))
    → (o >>= f) ≡ (o' >>= g)
then-same none none f g h k = refl
then-same none (some b) f g h k = absurd h
then-same (some a) none f g h k = absurd h
then-same (some (a, ls)) (some (b, ms)) f g (e, h) k =
    subst (λ c. f (a, ls) ≡ g (c, ms)) e (k a ls ms h)

if-same :
    {A : Type 0} (b b' : Bool) (x x' y y' : A)
    → b ≡ b'
    → x ≡ x'
    → y ≡ y'
    → (if b then x else y) ≡ (if b' then x' else y')
if-same true b' x x' y y' e h k = subst (λ c. x ≡ (if c then x' else y')) e h
if-same false b' x x' y y' e h k = subst (λ c. y ≡ (if c then x' else y')) e k

readall-same :
    (fuel : ℕ) (inet_pton : List ℕ → Option ℕ) (ls ms : List Line) (links : Links)
    (hosts : List Host)
    → AllSame ls ms
    → readall fuel inet_pton ls links hosts ≡ readall fuel inet_pton ms links hosts
unfolding readall
readall-same zero inet_pton ls ms links hosts h = refl
readall-same (suc fuel) inet_pton [] [] links hosts h = refl
readall-same (suc fuel) inet_pton [] (m ∷ ms) links hosts h = absurd h
readall-same (suc fuel) inet_pton (l ∷ ls) [] links hosts h = absurd h
readall-same (suc fuel) inet_pton (l ∷ ls) (m ∷ ms) links hosts (s, h) =
    let blank = readall-same fuel inet_pton ls ms links hosts h in
    let more =
      then-same (sections inet_pton l ls links hosts) (sections inet_pton m ms links hosts)
        (λ r. readall fuel inet_pton r.1 r.0.0 r.0.1) (λ r. readall fuel inet_pton r.1 r.0.0 r.0.1)
        (sections-Agree inet_pton l m ls ms links hosts s h)
        (λ t ls' ms' h'. readall-same fuel inet_pton ls' ms' t.0 t.1 h') in
    if-same (same l.text end_text) (same m.text end_text) _ _ _ _ (ap (λ t. same t end_text) s.text)
      refl
      (if-same (same l.text (new_line ∷ [])) (same m.text (new_line ∷ [])) _ _ _ _
        (ap (λ t. same t (new_line ∷ [])) s.text) blank more)

lines_of-AllSame :
    (stack stack' : ℕ → List ℕ) (i : ℕ) (texts : List (List ℕ))
    → Ends stack
    → Ends stack'
    → AllSame (lines_of stack i texts) (lines_of stack' i texts)
      × (length (lines_of stack i texts) ≡ length (lines_of stack' i texts))
unfolding lines_of
lines_of-AllSame stack stack' i [] h h' = (tt, refl)
lines_of-AllSame stack stack' i (text ∷ texts) h h' =
    let rest = lines_of-AllSame stack stack' (i + 1) texts h h' in
    ((record { text = refl; ends_l = h i; ends_m = h' i }, rest.0), ap suc rest.1)

-- Two processes that find no digit behind the copied characters read the same from a file.
pub readconfig-any_stack :
    (inet_pton : List ℕ → Option ℕ) (stack stack' : ℕ → List ℕ) (file : Option (List (List ℕ)))
    (links : Links) (hosts : List Host)
    → Ends stack
    → Ends stack'
    → readconfig inet_pton (file_lines stack file) links hosts
      ≡ readconfig inet_pton (file_lines stack' file) links hosts
unfolding readconfig file_lines
readconfig-any_stack inet_pton stack stack' none links hosts h h' = refl
readconfig-any_stack inet_pton stack stack' (some texts) links hosts h h' =
    let s = lines_of-AllSame stack stack' 0 texts h h' in
    rw s.1 (
      readall-same (suc (length (lines_of stack' 0 texts))) inet_pton (lines_of stack 0 texts)
        (lines_of stack' 0 texts) links hosts s.0)
