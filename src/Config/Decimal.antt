-- ===== src/Config/Decimal.antt =====
-- Numbers as `strtol` reads them and as a person writes them.
use network_layer_full.Base.{
  ℕ, zero, suc, ◌+◌, ◌-◌, ◌*◌, ◌/◌, ◌%◌, ◌^◌, ◌≤◌, ◌<◌, ◌≡◌, refl, ap, ◌∙◌, true, false, some, List,
  [], ◌∷◌, ◌++◌, arith, if◌then◌else◌, leb, le→leb, take, ltb, All, All-append, length,
  length-append, Bool-cases, ltb→lt, inl, inr,
}
use native.Mathlib.Nat.{pow-suc}
use network_layer_full.Config.{is_digit, digits, strtol, has_stop, strtol_of}

-- A number of at most `suc w` digits.
unfoldable pub decimal : ℕ → ℕ → List ℕ
decimal zero n = (48 + n) ∷ []
decimal (suc w) n =
    let front = decimal w (n / 10) in
    if ltb n 10 then (48 + n) ∷ [] else front ++ ((48 + n % 10) ∷ [])

abbrev pub IsDigit : ℕ → Type 0
IsDigit c = (48 ≤ c) × (c ≤ 57)

-- Bytes of which the first ends the reading of a number.
abbrev pub NoDigit : List ℕ → Type 0
NoDigit [] = ⊥
NoDigit (c ∷ cs) = is_digit c ≡ false

pub is_digit-IsDigit : (c : ℕ) → IsDigit c → is_digit c ≡ true
is_digit-IsDigit c h = ground arith

digits-append :
    (cs rest : List ℕ) (n : ℕ) → All IsDigit cs → digits (cs ++ rest) n ≡ digits rest (digits cs n)
unfolding digits
digits-append [] rest n h = refl
digits-append (c ∷ cs) rest n h =
    let d : is_digit c ≡ true = is_digit-IsDigit c h.0 in
    rw d (digits-append cs rest (10 * n + (c - 48)) h.1)

digits-NoDigit : (junk : List ℕ) (n : ℕ) → NoDigit junk → digits junk n ≡ n
unfolding digits
digits-NoDigit [] n h = refl
digits-NoDigit (c ∷ cs) n h = rw h

-- What the digits of a number are.
pub record Writes (n w : ℕ) (cs : List ℕ) : Type 0 where
  pub first : ℕ
  pub others : List ℕ
  pub shape : cs ≡ first ∷ others
  pub all : All IsDigit cs
  pub short : length cs ≤ w
  pub value : digits cs 0 ≡ n

one_digit : (n w : ℕ) → n < 10 → Writes n (suc w) ((48 + n) ∷ [])
unfolding digits
one_digit n w h = record {
  first = 48 + n;
  others = [];
  shape = refl;
  all = ((omega arith, omega arith), tt);
  short = omega arith;
  value = let d : is_digit (48 + n) ≡ true = ground arith in rw d (omega arith);
}

more_digits :
    (n w : ℕ) (cs : List ℕ) → Writes (n / 10) w cs → Writes n (suc w) (cs ++ ((48 + n % 10) ∷ []))
unfolding digits
more_digits n w cs f =
    let last = (48 + n % 10) ∷ [] in
    let d : is_digit (48 + n % 10) ≡ true = ground arith in
    record {
      first = f.first;
      others = f.others ++ last;
      shape = ap (λ t. t ++ last) f.shape;
      all = All-append IsDigit cs last f.all ((omega arith, omega arith), tt);
      short = omega (arith, length-append cs last, f.short);
      value = digits-append cs last 0 f.all ∙ rw (f.value, d) (omega arith);
    }

pub decimal-Writes : (w n : ℕ) → n < 10 ^ suc w → Writes n (suc w) (decimal w n)
unfolding decimal
decimal-Writes zero n h = one_digit n 0 (omega (arith, pow-suc 10 0))
decimal-Writes (suc w) n h = elim (Bool-cases (ltb n 10)) [
  | inl small ↦ rw small (one_digit n (suc w) (ltb→lt n 10 small))
  | inr big ↦ rw big (
      more_digits n (suc w) (decimal w (n / 10))
        (decimal-Writes w (n / 10) (omega (arith, pow-suc 10 (suc w)))))
]

-- Read back, before bytes that do not go on with a digit.
pub strtol-Writes :
    (n w : ℕ) (cs junk : List ℕ)
    → Writes n w cs
    → NoDigit junk
    → n < 2 ^ 63
    → strtol (cs ++ junk) ≡ n
strtol-Writes n w cs junk f h small =
    let e : digits (cs ++ junk) 0 ≡ n =
      digits-append cs junk 0 f.all ∙ digits-NoDigit junk (digits cs 0) h ∙ f.value in
    rw e (omega arith)

has_stop-NoDigit :
    (cs junk : List ℕ) (size : ℕ)
    → NoDigit junk
    → length cs < size
    → has_stop (take size (cs ++ junk)) ≡ true
has_stop-NoDigit cs junk zero h small = absurd (omega arith)
has_stop-NoDigit [] [] (suc size) h small = absurd h
has_stop-NoDigit [] (c ∷ junk) (suc size) h small = rw h
has_stop-NoDigit (c ∷ cs) junk (suc size) h small = elim (Bool-cases (is_digit c)) [
  | inl digit ↦ rw digit (has_stop-NoDigit cs junk size h (omega arith))
  | inr other ↦ rw other
]

-- A number that leaves room in the array is read, if no digit is behind it.
pub strtol_of-Writes :
    (n w size : ℕ) (cs junk : List ℕ)
    → Writes n w cs
    → NoDigit junk
    → w < size
    → n < 2 ^ 63
    → strtol_of size cs junk ≡ some n
unfolding strtol_of
strtol_of-Writes n w size cs junk f h room small =
    let short = f.short in
    let fits : leb (length cs) size ≡ true = le→leb (length cs) size (omega arith) in
    let stop = has_stop-NoDigit cs junk size h (omega arith) in
    let value = strtol-Writes n w cs junk f h small in rw (fits, stop, value)
