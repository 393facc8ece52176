-- ===== src/Transport/Acks/Laws.antt =====
-- Setting and asking, and how far the window moves.
use network_layer_full.Base.{
  ℕ, ◌+◌, ◌<◌, ◌≡◌, ◌≢◌, inl, inr, refl, ap, Bool-cases, List, [], ◌∷◌, ◌++◌, arith, ◌==◌, ==_iff,
  All, size_mod,
}
use network_layer_full.Transport.Acks.{Ack, set_ack, is_set, in_seq}

-- Setting an acknowledgement sets it, and leaves the answer for every other number as it was.
pub is_set-set_ack :
    (acks : List Ack) (num other : ℕ)
    → other ≢ num
    → (is_set (set_ack acks num) num ≡ 1) × (is_set (set_ack acks num) other ≡ is_set acks other)
unfolding is_set set_ack
is_set-set_ack [] num other ne = (refl, refl)
is_set-set_ack (a ∷ as') num other ne = ground (arith, is_set-set_ack as' num other ne)

abbrev pub total : List Ack → ℕ
total [] = 0
total (a ∷ as') = a.size + total as'

pub total-append : (xs ys : List Ack) → total (xs ++ ys) ≡ total xs + total ys
total-append [] ys = omega arith
total-append (x ∷ xs) ys = omega (arith, total-append xs ys)

-- A list whose first acknowledgement is outstanding, if there is one.
abbrev pub IsWaiting : List Ack → Type 0
IsWaiting [] = Unit
IsWaiting (a ∷ as') = a.flag ≡ 0

-- The window moves over exactly the acknowledged prefix: the list is a prefix of acknowledged
-- entries, whose sizes add up to the result, followed by what is left; and what is left is empty
-- or begins with an entry that is outstanding.
pub in_seq_lem :
    (acks : List Ack)
    → total acks < size_mod
    → (front : List Ack) × (acks ≡ front ++ (in_seq acks).1)
      × All (λ a. a.flag ≢ 0) front
      × (total front ≡ (in_seq acks).0)
      × IsWaiting (in_seq acks).1
unfolding in_seq
in_seq_lem [] small = ([], refl, tt, refl, tt)
in_seq_lem (a ∷ as') small = elim (Bool-cases (a.flag == 0)) [
  | inl stop ↦ rw stop ([], refl, tt, refl, (==_iff a.flag 0).0 stop)
  | inr on ↦
      let ih = in_seq_lem as' (omega arith) in
      let set' : a.flag ≢ 0 = ground arith in
      rw on (
        a ∷ ih.0,
        ap (λ t. a ∷ t) ih.1,
        (set', ih.2),
        omega (arith, ap total ih.1, total-append ih.0 (in_seq as').1, ih.3),
        ih.4,
      )
]
