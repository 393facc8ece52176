-- ===== src/Net/Packs/Keys.antt =====
-- The entries of net_layer/list/net_list.c by their keys.
use network_layer_full.Base.{ℕ, ◌≡◌, inl, inr, true, Bool-cases, some, List, [], ◌∷◌, arith, All}
use network_layer_full.Net.Packs.{Pack, has_key, getid, removeid, update_id}

some_injective : {p q : Pack} → some p ≡ some q → p ≡ q
some_injective e = cc

pub getid-All :
    (P : Pack → Type 0) (packs : List Pack) (id src : ℕ) {p : Pack}
    → All P packs
    → getid packs id src ≡ some p
    → P p
unfolding getid
getid-All P [] id src h e = cc
getid-All P (q ∷ qs) id src {p} h e = elim (Bool-cases (has_key id src q)) [
  | inl here ↦ let same : q ≡ p = some_injective (rw here at e) in rw same at h.0
  | inr there ↦ getid-All P qs id src h.1 (rw there at e)
]

pub getid-has_key :
    (packs : List Pack) (id src : ℕ) {p : Pack}
    → getid packs id src ≡ some p
    → (p.id ≡ id) × (p.src ≡ src)
unfolding getid
getid-has_key [] id src e = cc
getid-has_key (q ∷ qs) id src {p} e = elim (Bool-cases (has_key id src q)) [
  | inl here ↦ ground arith
  | inr there ↦ getid-has_key qs id src (rw there at e)
]

pub update_id-All :
    (P : Pack → Type 0) (packs : List Pack) (id src : ℕ) (p' : Pack)
    → All P packs
    → P p'
    → All P (update_id packs id src p')
unfolding update_id
update_id-All P [] id src p' h h' = tt
update_id-All P (q ∷ qs) id src p' h h' = elim (Bool-cases (has_key id src q)) [
  | inl here ↦ rw here (h', h.1)
  | inr there ↦ rw there (h.0, update_id-All P qs id src p' h.1 h')
]

pub getid-update_id :
    (packs : List Pack) (id src : ℕ) (p' : Pack) {p : Pack}
    → getid packs id src ≡ some p
    → p'.id ≡ id
    → p'.src ≡ src
    → getid (update_id packs id src p') id src ≡ some p'
unfolding getid update_id
getid-update_id [] id src p' e ei es = cc
getid-update_id (q ∷ qs) id src p' e ei es = elim (Bool-cases (has_key id src q)) [
  | inl here ↦ let key : has_key id src p' ≡ true = ground arith in rw (here, key)
  | inr there ↦ rw (there, there) (getid-update_id qs id src p' (rw there at e) ei es)
]

pub getid_here : (p : Pack) (packs : List Pack) → getid (p ∷ packs) p.id p.src ≡ some p
unfolding getid
getid_here p packs = ground arith

pub removeid-All :
    (P : Pack → Type 0) (packs : List Pack) (id src : ℕ)
    → All P packs
    → All P (removeid packs id src)
unfolding removeid
removeid-All P [] id src h = tt
removeid-All P (q ∷ qs) id src h = elim (Bool-cases (has_key id src q)) [
  | inl here ↦ rw here h.1
  | inr there ↦ rw there (h.0, removeid-All P qs id src h.1)
]
