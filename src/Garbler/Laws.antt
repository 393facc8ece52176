-- ===== src/Garbler/Laws.antt =====
-- What can happen to a message.
use network_layer_full.Base.{
  ℕ, ◌+◌, ◌%◌, ◌≤◌, ◌≡◌, ◌⊎◌, arith, List, length, All, Bool-cases, inl, inr,
}
use network_layer_full.Base.Int.{ℤ, pos, negsuc, ◌+ℤ◌, ◌≤ℤ◌, pos_part, neg_part, ltb_ℤ}
use network_layer_full.Garbler.{Garbler, set_garbler, corrupt, sendto_garbled}

-- Percentages that add up to 100 at most.
pub record IsValid (g : Garbler) : Type 0 where
  pub loss_nonneg : neg_part g.loss_fraction ≡ 0
  pub corruption_nonneg : neg_part g.corruption_fraction ≡ 0
  pub duplication_nonneg : neg_part g.duplication_fraction ≡ 0
  pub total :
      pos_part g.loss_fraction + pos_part g.corruption_fraction + pos_part g.duplication_fraction
      ≤ 100

-- `set_garbler` keeps the globals valid. Either the three values are nonnegative with sum at most
-- 100, it returns 1 and stores them; or they are not, it returns a negative value and leaves the
-- globals alone.
pub set_garbler-IsValid :
    (g : Garbler) (l c d : ℤ)
    → IsValid g
    → let (g', r) = set_garbler g l c d in
      IsValid g'
      × (((pos 0 ≤ℤ l)
            × (pos 0 ≤ℤ c)
            × (pos 0 ≤ℤ d)
            × (l +ℤ c +ℤ d ≤ℤ pos 100)
            × (r ≡ pos 1)
            × (g'
                ≡ record { loss_fraction = l; corruption_fraction = c; duplication_fraction = d }))
          ⊎ (((l ≤ℤ negsuc 0) ⊎ (c ≤ℤ negsuc 0) ⊎ (d ≤ℤ negsuc 0) ⊎ (pos 101 ≤ℤ l +ℤ c +ℤ d))
              × (r ≤ℤ negsuc 0)
              × (g' ≡ g)))
unfolding set_garbler
set_garbler-IsValid g l c d v = ground arith

-- Every message handed to `sendto` is the original or the copy with one byte overwritten.
pub sendto_garbled-All :
    (P : List ℕ → Type 0) (sendto : ℕ → List ℕ → ℤ) (g : Garbler) (random1 random2 : ℕ)
    (msg : List ℕ)
    → P msg
    → P (corrupt random2 msg)
    → let sent = (sendto_garbled sendto g random1 random2 msg).0 in All P sent × (length sent ≤ 2)
unfolding sendto_garbled
sendto_garbled-All P sendto g random1 random2 msg whole damaged =
    elim (Bool-cases (ltb_ℤ (pos r) g.loss_fraction)) [
      | inl e ↦ rw e (tt, omega arith)
      | inr e ↦ rw e (elim (Bool-cases (ltb_ℤ (pos r) (g.loss_fraction +ℤ g.corruption_fraction))) [
        | inl e ↦ rw e ((damaged, tt), omega arith)
        | inr e ↦
            rw e
              (elim (Bool-cases (
                ltb_ℤ (pos r)
                  (g.loss_fraction +ℤ g.corruption_fraction +ℤ g.duplication_fraction))) [
                    | inl e ↦ rw e ((whole, (whole, tt)), omega arith)
                    | inr e ↦ rw e ((whole, tt), omega arith)
                  ])
      ])
    ]
  where
    r : ℕ
    r = random1 % 100
