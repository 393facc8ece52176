-- ===== src/Base/Bytes.antt =====
-- Objects in memory as byte lists, lowest address first. The hosts are little-endian with an
-- eight-byte `size_t`. A `memcpy` that reads past the end of its source is `none`.
use Prim.Native.Nat.{ℕ, zero, suc, ◌+◌, ◌*◌, ◌/◌, ◌%◌, ◌^◌, ◌<◌}
use mathlib.Core.Path.{◌≡◌, refl, ap, subst}
use mathlib.Core.List.{List, [], ◌∷◌, ◌++◌, append-nil}
use mathlib.Core.Option.{Option, none, some}
use native.Mathlib.Omega.{arith}
use native.Mathlib.Nat.{pow-suc}
use network_layer_full.Base.Tests.{◌>>=◌}
use network_layer_full.Base.Lists.{length, All}

abbrev pub IsByte : ℕ → Type 0
IsByte b = b < 256

abbrev pub AllBytes : List ℕ → Type 0
AllBytes bs = All IsByte bs

-- The bytes of an unsigned integer of `w` bytes.
unfoldable pub le_bytes : ℕ → ℕ → List ℕ
le_bytes zero n = []
le_bytes (suc w) n = (n % 256) ∷ le_bytes w (n / 256)

-- memcpy(&x, p, w) for an integer x: its value, and what follows it.
unfoldable pub read_le : ℕ → List ℕ → Option (ℕ × List ℕ)
read_le zero bs = some (0, bs)
read_le (suc w) [] = none
read_le (suc w) (b ∷ bs) = do (n, rest) ← read_le w bs; some (b + 256 * n, rest)

-- memcpy(d, p, n): the bytes, and what follows them.
unfoldable pub read_data : ℕ → List ℕ → Option (List ℕ × List ℕ)
read_data zero bs = some ([], bs)
read_data (suc n) [] = none
read_data (suc n) (b ∷ bs) = do (d, rest) ← read_data n bs; some (b ∷ d, rest)

pub length-le_bytes : (w n : ℕ) → length (le_bytes w n) ≡ w
unfolding le_bytes
length-le_bytes zero n = refl
length-le_bytes (suc w) n = ap suc (length-le_bytes w (n / 256))

pub le_bytes-AllBytes : (w n : ℕ) → AllBytes (le_bytes w n)
unfolding le_bytes
le_bytes-AllBytes zero n = tt
le_bytes-AllBytes (suc w) n = (omega arith, le_bytes-AllBytes w (n / 256))

-- Reading back an integer that fits its width.
pub read_le-le_bytes :
    (w n : ℕ) (rest : List ℕ) → n < 256 ^ w → read_le w (le_bytes w n ++ rest) ≡ some (n, rest)
unfolding read_le le_bytes
read_le-le_bytes zero n rest h = ap (λ k. some (k, rest)) (omega arith)
read_le-le_bytes (suc w) n rest h =
    rw (read_le-le_bytes w (n / 256) rest (omega (arith, pow-suc 256 w)))
      (ap (λ k. some (k, rest)) (omega arith))

pub read_data-append : (d rest : List ℕ) → read_data (length d) (d ++ rest) ≡ some (d, rest)
unfolding read_data
read_data-append [] rest = refl
read_data-append (b ∷ d) rest = rw (read_data-append d rest)

pub read_data-sized :
    (n : ℕ) (d rest : List ℕ) → length d ≡ n → read_data n (d ++ rest) ≡ some (d, rest)
read_data-sized n d rest e =
    subst (λ k. read_data k (d ++ rest) ≡ some (d, rest)) e (read_data-append d rest)

pub read_le-le_bytes_last : (w n : ℕ) → n < 256 ^ w → read_le w (le_bytes w n) ≡ some (n, [])
read_le-le_bytes_last w n h = rw (← append-nil (le_bytes w n)) (read_le-le_bytes w n [] h)
