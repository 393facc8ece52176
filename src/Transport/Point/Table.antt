-- ===== src/Transport/Point/Table.antt =====
-- The table of service points: `getfreeslot`, `alloc_service_point` and `dalloc_service_point` of
-- transport_layer/transport_layer.c.
use network_layer_full.Base.{
  ℕ, zero, suc, ◌+◌, ◌<◌, ◌≡◌, ◌≢◌, ◌⊎◌, inl, inr, refl, sym, subst, ap, Option, none, some, [],
  ◌∷◌, arith, length, set, get_elem?,
}
use network_layer_full.Transport.Point.{
  ServicePoint, Points, getfreeslot, fresh, alloc_at, alloc_service_point, dalloc_service_point,
}

-- The first free index: the slots before it are taken.
pub record FirstFree (ps : Points) (slot : ℕ) : Type 0 where
  pub inside : slot < length ps
  pub free : get_elem? ps slot ≡ some none
  pub taken : (j : ℕ) → j < slot → get_elem? ps j ≢ some none

-- What `getfreeslot` finds from the index `i` on.
abbrev Finds : Points → ℕ → Option ℕ → Type 0
Finds ps i none = (j : ℕ) → get_elem? ps j ≢ some none
Finds ps i (some slot) = (k : ℕ) × (slot ≡ i + k) × FirstFree ps k

-- Behind a slot that is taken.
taken_cons :
    (ps : Points) (p : ServicePoint) (n : ℕ)
    → ((j : ℕ) → j < n → get_elem? ps j ≢ some none)
    → (j : ℕ) → j < suc n
    → get_elem? (some p ∷ ps) j ≢ some none
taken_cons ps p n h zero lt = λ e. cc
taken_cons ps p n h (suc j) lt = h j (omega arith)

Finds-cons :
    (ps : Points) (p : ServicePoint) (i : ℕ) (found : Option ℕ)
    → Finds ps (i + 1) found
    → Finds (some p ∷ ps) i found
Finds-cons ps p i none h = λ j. taken_cons ps p j (λ k lt. h k) j (omega arith)
Finds-cons ps p i (some slot) h = (
  suc h.0,
  omega (arith, h.1),
  record {
    inside = omega (arith, h.2.inside);
    free = h.2.free;
    taken = taken_cons ps p h.0 h.2.taken;
  },
)

getfreeslot-Finds : (ps : Points) (i : ℕ) → Finds ps i (getfreeslot ps i)
unfolding getfreeslot
getfreeslot-Finds [] i = λ j e. cc
getfreeslot-Finds (none ∷ ps) i = (
  0,
  omega arith,
  record { inside = omega arith; free = refl; taken = λ j lt. absurd (omega arith) },
)
getfreeslot-Finds (some p ∷ ps) i =
    Finds-cons ps p i (getfreeslot ps (i + 1)) (getfreeslot-Finds ps (i + 1))

set_back :
    (ps : Points) (slot : ℕ) (v : Option ServicePoint)
    → get_elem? ps slot ≡ some none
    → set (set ps slot v) slot none ≡ ps
set_back [] slot v e = refl
set_back (p ∷ ps) zero v e = let e' : p ≡ none = cc in rw e'
set_back (p ∷ ps) (suc slot) v e = ap (λ (t : Points). p ∷ t) (set_back ps slot v e)

alloc_at_lem :
    (raw : ServicePoint) (ps : Points) (found : Option ℕ)
    → Finds ps 0 found
    → ((slot : ℕ) × FirstFree ps slot
        × (alloc_at raw ps found ≡ (slot, set ps slot (some (fresh raw))))
        × (dalloc_service_point (alloc_at raw ps found).1 slot ≡ ps))
      ⊎ (((j : ℕ) → get_elem? ps j ≢ some none) × (alloc_at raw ps found ≡ (65535, ps)))
unfolding alloc_at dalloc_service_point
alloc_at_lem raw ps none h = inr (h, refl)
alloc_at_lem raw ps (some slot) h =
    let same : slot ≡ h.0 = omega (arith, h.1) in
    inl (
      slot,
      subst (FirstFree ps) (sym same) h.2,
      refl,
      set_back ps slot (some (fresh raw)) (rw same h.2.free),
    )

-- `alloc_service_point` returns the first free index of the table
-- and puts a new point there, and `dalloc_service_point` of that index gives the table back; or every slot is
-- taken, and it returns 65535 and leaves the table alone.
pub alloc_service_point_lem :
    (raw : ServicePoint) (ps : Points)
    → ((slot : ℕ) × FirstFree ps slot
        × (alloc_service_point raw ps ≡ (slot, set ps slot (some (fresh raw))))
        × (dalloc_service_point (alloc_service_point raw ps).1 slot ≡ ps))
      ⊎ (((j : ℕ) → get_elem? ps j ≢ some none) × (alloc_service_point raw ps ≡ (65535, ps)))
unfolding alloc_service_point
alloc_service_point_lem raw ps = alloc_at_lem raw ps (getfreeslot ps 0) (getfreeslot-Finds ps 0)
