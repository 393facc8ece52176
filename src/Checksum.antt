-- ===== src/Checksum.antt =====
-- checksum/checksum.c: the 16-bit one's complement sum of a byte sequence.
pub mod Laws
pub mod Detect
use network_layer_full.Base.{
  ℕ, zero, suc, ◌+◌, ◌-◌, ◌*◌, ◌/◌, ◌%◌, ◌^◌, Option, none, some, List, [], ◌∷◌, u16, u32, ◌==◌,
  if◌then◌else◌,
}

-- The two bytes at an even offset, read as a `uint16_t`.
abbrev pub word : ℕ → ℕ → ℕ
word lo hi = lo + 256 * hi

-- The loop over whole words and the odd byte that may be left, from the `uint32_t` sum so far.
pub sum_words : ℕ → List ℕ → ℕ
sum_words sum [] = sum
sum_words sum (a ∷ []) = u32 (sum + a)
sum_words sum (a ∷ b ∷ rest) = sum_words (u32 (sum + word a b)) rest

-- The carry loop, with fuel; `none` means that the fuel ran out.
pub fold_carries : ℕ → ℕ → Option ℕ
fold_carries zero sum = none
fold_carries (suc fuel) sum =
    let rest = fold_carries fuel (u32 (sum % 2 ^ 16 + sum / 2 ^ 16)) in
    if sum / 2 ^ 16 == 0 then some sum else rest

-- `(uint16_t)~sum` of what the carry loop leaves. Three rounds are enough
-- (`Laws.fold_carries_total`), so the other case does not arise.
pub complement : Option ℕ → ℕ
complement none = 0
complement (some sum) = u16 (2 ^ 32 - 1 - sum)

unfoldable pub checksum : List ℕ → ℕ
unfolding complement fold_carries sum_words
checksum bs = complement (fold_carries 3 (sum_words 0 bs))
