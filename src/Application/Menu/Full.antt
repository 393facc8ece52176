-- ===== src/Application/Menu/Full.antt =====
-- The menu when every service point is in use.
use network_layer_full.Base.{
  ℕ, zero, suc, ◌≤◌, ◌≡◌, ◌≢◌, inl, inr, refl, none, some, List, [], ◌∷◌, arith, length, get_elem?,
}
use network_layer_full.Application.Menu.{
  HostState, Found, open_point, connect, shown, crash, at_point, open_slot, choose,
}
use network_layer_full.Transport.Point.{ServicePoint, Points, alloc_service_point}
use network_layer_full.Transport.Point.Table.{alloc_service_point_lem}

get_elem?-out : {A : Type 0} (xs : List A) (i : ℕ) → length xs ≤ i → get_elem? xs i ≡ none
get_elem?-out [] i h = refl
get_elem?-out (x ∷ xs) zero h = absurd (omega arith)
get_elem?-out (x ∷ xs) (suc i) h = get_elem?-out xs i (omega arith)

full-alloc :
    (raw : ServicePoint) (ps : Points)
    → ((j : ℕ) → get_elem? ps j ≢ some none)
    → alloc_service_point raw ps ≡ (65535, ps)
full-alloc raw ps taken = elim (alloc_service_point_lem raw ps) [
  | inl (slot, first, rest, back) ↦ absurd (taken slot first.free)
  | inr (all, same) ↦ same
]

-- While no slot of the table of service points is free, the option that opens a point shows
-- 65535 as the number of the new point and changes nothing; and the option that connects the point
-- of this number accesses memory behind the table.
pub open_point-full :
    (f : Found) (num dest dest_ips tam_window : ℕ) (h : HostState)
    → length h.points ≡ 16
    → ((j : ℕ) → get_elem? h.points j ≢ some none)
    → (choose f num h open_point ≡ shown 65535 [] h [])
      × (choose f num h (connect 65535 dest dest_ips tam_window) ≡ crash)
unfolding choose open_slot at_point
open_point-full f num dest dest_ips tam_window h sized taken =
    let out : get_elem? h.points 65535 ≡ none = get_elem?-out h.points 65535 (omega arith) in
    let same = full-alloc f.raw_point h.points taken in (rw same, rw out)
