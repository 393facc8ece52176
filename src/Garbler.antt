-- ===== src/Garbler.antt =====
-- garbler/garbler.c: losing, corrupting and duplicating outgoing messages. The two random numbers
-- and the system's `sendto` are arguments.
pub mod Laws
use network_layer_full.Base.{
  ℕ, ◌+◌, ◌%◌, ◌^◌, List, [], ◌∷◌, if◌then◌else◌, Bool, ◌||◌, length, set, u8,
}
use network_layer_full.Base.Int.{ℤ, pos, negsuc, ◌+ℤ◌, ltb_ℤ}

-- The three globals, all 0 at the start.
pub record Garbler : Type 0 where
  pub loss_fraction : ℤ
  pub corruption_fraction : ℤ
  pub duplication_fraction : ℤ

abbrev pub initial : Garbler
initial = record {
  loss_fraction = pos 0;
  corruption_fraction = pos 0;
  duplication_fraction = pos 0;
}

-- (x < 0) || (x > 100)
abbrev pub out_of_percent : ℤ → Bool
out_of_percent x = ltb_ℤ x (pos 0) || ltb_ℤ (pos 100) x

-- The new globals and the return value.
unfoldable pub set_garbler : Garbler → ℤ → ℤ → ℤ → Garbler × ℤ
set_garbler g l c d =
    if out_of_percent l
    then (g, negsuc 0)
    else (if out_of_percent c
        then (g, negsuc 1)
        else (if out_of_percent d
            then (g, negsuc 2)
            else (if ltb_ℤ (pos 100) (l +ℤ c +ℤ d) then (g, negsuc 3) else (
              record { loss_fraction = l; corruption_fraction = c; duplication_fraction = d },
              pos 1,
            ))))

-- The copy with one byte overwritten: `error_pos` and `error_value` come from one random number.
unfoldable pub corrupt : ℕ → List ℕ → List ℕ
corrupt randomvalue msg = set msg (randomvalue % length msg) (u8 randomvalue)

-- The messages given to `sendto`, in order, and the return value. `sendto` is asked for its result
-- with the number of the call.
unfoldable pub sendto_garbled : (ℕ → List ℕ → ℤ) → Garbler → ℕ → ℕ → List ℕ → List (List ℕ) × ℤ
unfolding corrupt
sendto_garbled sendto g random1 random2 msg =
    let randomvalue = random1 % 100 in
    let damaged = corrupt random2 msg in
    if ltb_ℤ (pos randomvalue) g.loss_fraction
    then ([], pos (length msg))
    else (if ltb_ℤ (pos randomvalue) (g.loss_fraction +ℤ g.corruption_fraction)
        then (damaged ∷ [], sendto 0 damaged)
        else (if ltb_ℤ (pos randomvalue)
              (g.loss_fraction +ℤ g.corruption_fraction +ℤ g.duplication_fraction)
            then (msg ∷ msg ∷ [], sendto 1 msg)
            else (msg ∷ [], sendto 0 msg)))
