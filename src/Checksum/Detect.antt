-- ===== src/Checksum/Detect.antt =====
-- The checksum notices every change of a single byte, which is what `garbler` does to a message.
use network_layer_full.Base.{
  ℕ, zero, suc, ◌+◌, ◌*◌, ◌^◌, ◌<◌, ◌≡◌, ◌≢◌, ◌⊎◌, some, List, [], ◌∷◌, arith, length, length-set,
  get_elem?, set, AllBytes,
}
use network_layer_full.Checksum.{checksum}
use network_layer_full.Checksum.Laws.{word_sum, ones_sum, checksum_lem}

pub set-AllBytes : (bs : List ℕ) (i v : ℕ) → AllBytes bs → v < 256 → AllBytes (set bs i v)
set-AllBytes [] i v h hv = tt
set-AllBytes (b ∷ bs) zero v h hv = (hv, h.1)
set-AllBytes (b ∷ bs) (suc i) v h hv = (h.0, set-AllBytes bs i v h.1 hv)

-- A byte counts once or 256 times, by the parity of its index.
word_sum-set :
    (bs : List ℕ) (i v old : ℕ)
    → get_elem? bs i ≡ some old
    → (word_sum (set bs i v) + old ≡ word_sum bs + v)
      ⊎ (word_sum (set bs i v) + 256 * old ≡ word_sum bs + 256 * v)
unfolding word_sum
word_sum-set [] i v old e = cc
word_sum-set (a ∷ []) zero v old e = ground arith
word_sum-set (a ∷ []) (suc i) v old e = cc
word_sum-set (a ∷ b ∷ rest) zero v old e = ground arith
word_sum-set (a ∷ b ∷ rest) (suc zero) v old e = ground arith
word_sum-set (a ∷ b ∷ rest) (suc (suc i)) v old e = omega (arith, word_sum-set rest i v old e)

-- Sums that differ by less than 65535 have different end-around-carry sums.
ones_sum-ne : (s t : ℕ) → s ≢ t → s < t + 65535 → t < s + 65535 → ones_sum s ≢ ones_sum t
ones_sum-ne s t ne a b = ground arith

-- Changing one byte of at most 2 ^ 17 bytes to another value changes the checksum.
pub checksum-set_ne :
    (bs : List ℕ) (i v old : ℕ)
    → AllBytes bs
    → v < 256
    → old < 256
    → length bs < 2 ^ 17
    → get_elem? bs i ≡ some old
    → v ≢ old
    → checksum (set bs i v) ≢ checksum bs
checksum-set_ne bs i v old h hv ho small e ne =
    let h' = set-AllBytes bs i v h hv in
    let small' : length (set bs i v) < 2 ^ 17 = omega (arith, length-set bs i v) in
    let d = word_sum-set bs i v old e in
    let apart =
      ones_sum-ne (word_sum (set bs i v)) (word_sum bs) (omega arith) (omega arith) (omega arith) in
    rw (checksum_lem (set bs i v) h' small', checksum_lem bs h small) (ground (arith, apart))
