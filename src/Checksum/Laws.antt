-- ===== src/Checksum/Laws.antt =====
-- What `checksum` computes: the sum of the 16-bit words modulo 65535, complemented.
use network_layer_full.Base.{
  ℕ, ◌+◌, ◌-◌, ◌*◌, ◌%◌, ◌^◌, ◌≤◌, ◌<◌, ◌≡◌, some, List, [], ◌∷◌, ◌==◌, ap, ◌∙◌, if◌then◌else◌,
  arith, length, AllBytes, u32,
}
use network_layer_full.Checksum.{word, sum_words, fold_carries, complement, checksum}

-- The sum of the little-endian words, unbounded; an odd last byte counts as a low byte.
unfoldable pub word_sum : List ℕ → ℕ
word_sum [] = 0
word_sum (a ∷ []) = a
word_sum (a ∷ b ∷ rest) = word a b + word_sum rest

-- The end-around-carry sum: 0 for 0, and else the representative from 1 to 65535.
abbrev pub ones_sum : ℕ → ℕ
ones_sum s = if s == 0 then 0 else (s - 1) % 65535 + 1

pub word_sum-le : (bs : List ℕ) → AllBytes bs → 2 * word_sum bs ≤ 65535 * (length bs + 1)
unfolding word_sum
word_sum-le [] h = omega arith
word_sum-le (a ∷ []) h = omega arith
word_sum-le (a ∷ b ∷ rest) h = omega (arith, word_sum-le rest h.1.1)

-- Without overflow the 32-bit loop computes the unbounded sum.
pub sum_words-eq-word_sum :
    (s : ℕ) (bs : List ℕ) → s + word_sum bs < 2 ^ 32 → sum_words s bs ≡ s + word_sum bs
unfolding sum_words word_sum
sum_words-eq-word_sum s [] h = omega arith
sum_words-eq-word_sum s (a ∷ []) h = omega arith
sum_words-eq-word_sum s (a ∷ b ∷ rest) h =
    omega (arith, sum_words-eq-word_sum (u32 (s + word a b)) rest (omega arith))

-- A 32-bit sum loses its carries in at most two rounds; the third sees that none is left.
pub fold_carries_total : (s : ℕ) → s < 2 ^ 32 → fold_carries 3 s ≡ some (ones_sum s)
unfolding fold_carries
fold_carries_total s h = ground arith

checksum_of_sum :
    (bs : List ℕ) (s : ℕ) → s < 2 ^ 32 → sum_words 0 bs ≡ s → checksum bs ≡ 65535 - ones_sum s
unfolding checksum
checksum_of_sum bs s h e =
    ap (λ t. complement (fold_carries 3 t)) e
    ∙ ap complement (fold_carries_total s h)
    ∙ ground arith

-- On at most 2 ^ 17 bytes the checksum is the complement of the end-around-carry sum of the
-- data's little-endian 16-bit words, an odd last byte counted as a word.
pub checksum_lem :
    (bs : List ℕ) → AllBytes bs → length bs < 2 ^ 17 → checksum bs ≡ 65535 - ones_sum (word_sum bs)
checksum_lem bs h small =
    let bound : word_sum bs < 2 ^ 32 = omega (arith, word_sum-le bs h) in
    let summed : sum_words 0 bs ≡ word_sum bs = omega (arith, sum_words-eq-word_sum 0 bs) in
    checksum_of_sum bs (word_sum bs) bound summed

-- A checksum fits its two bytes.
pub checksum-lt : (bs : List ℕ) → checksum bs < 2 ^ 16
unfolding checksum complement
checksum-lt bs = ground arith
