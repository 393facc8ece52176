-- ===== src/Net/Packs/Counts.antt =====
-- `count_size` counts what has arrived, so a packet that is complete can be taken out.
use network_layer_full.Base.{
  ℕ, ◌+◌, ◌%◌, ◌<◌, ◌≡◌, ◌⊎◌, inl, inr, refl, sym, ◌∙◌, subst, eq→==, Bool, true, false, Bool-cases,
  Option, none, some, List, [], ◌∷◌, arith, if◌then◌else◌, ◌==◌, All, size_mod,
}
use network_layer_full.Net.Datagram.{Datagram, offset_of}
use network_layer_full.Net.Packs.{
  Pack, getid, removeid, update_id, Added, added, looped, duplicate, broken, endless, behind, walk,
  count_in, hangs, Got, undefined, addoffset, islastfrag, last_total, Inserted, inserted, crash,
  insert_first, insert_new, insert_more, insert_at, insertoffset, joined, sizes, got, get_from,
  getpack,
}
use network_layer_full.Net.Packs.Keys.{
  getid-All, getid-has_key, update_id-All, getid-update_id, getid_here, removeid-All,
}

-- The list of the fragments has no end, or `count_size` is the number of their bytes.
abbrev pub IsCounted : Pack → Type 0
IsCounted p = (p.cyclic ≡ true) ⊎ (sizes p.offs ≡ p.count_size)

-- The counters do not overflow when `n` more bytes arrive.
abbrev pub HasRoom : ℕ → Pack → Type 0
HasRoom n p = p.count_size + n < size_mod

-- A result whose fragments have `n` bytes together, if it is a list with an end.
abbrev HasSize : ℕ → Added → Type 0
HasSize n (added ds) = sizes ds ≡ n
HasSize n (looped ds) = Unit
HasSize n duplicate = Unit
HasSize n broken = Unit
HasSize n endless = Unit

behind-HasSize :
    (x y d : Datagram) (n : ℕ) (r : Added) → HasSize n r → HasSize (x.size + n) (behind x y d r)
unfolding sizes
behind-HasSize x y d n (added ds) h = omega arith
behind-HasSize x y d n (looped ds) h = tt
behind-HasSize x y d n duplicate h = tt
behind-HasSize x y d n broken h = tt
behind-HasSize x y d n endless h = tt

walk-HasSize :
    (x : Datagram) (xs : List Datagram) (d : Datagram)
    → HasSize (x.size + (sizes xs + d.size)) (walk x xs d)
unfolding walk sizes
walk-HasSize x [] d = elim (Bool-cases (offset_of x.frag == offset_of d.frag)) [
  | inl same ↦ rw same tt
  | inr new ↦ rw new (omega arith)
]
walk-HasSize x (y ∷ ys) d =
    elim (Bool-cases ((offset_of x.frag + d.size) % size_mod == offset_of d.frag)) [
      | inl here ↦ rw here tt
      | inr on ↦
          let e : y.size + sizes ys + d.size ≡ y.size + (sizes ys + d.size) = omega arith in
          rw (on, e)
            (behind-HasSize x y d (y.size + (sizes ys + d.size)) (walk y ys d)
              (walk-HasSize y ys d))
    ]

-- `addoffset` adds the bytes of the new fragment.
addoffset-HasSize :
    (ds : List Datagram) (d : Datagram) → HasSize (sizes ds + d.size) (addoffset false ds d)
unfolding addoffset sizes
addoffset-HasSize [] d = omega arith
addoffset-HasSize (x ∷ xs) d =
    let e : x.size + sizes xs + d.size ≡ x.size + (sizes xs + d.size) = omega arith in
    rw e (walk-HasSize x xs d)

-- What holds after an insertion of `d`: the counters are right, and if the packet of `d` is
-- complete, its entry is there with `total_size` bytes, or a list without an end.
abbrev pub Sound : Datagram → Inserted → Type 0
Sound d crash = Unit
Sound d hangs = Unit
Sound d (inserted false packs) = All IsCounted packs
Sound d (inserted true packs) =
    All IsCounted packs
    × ((p : Pack) × (getid packs d.id d.src ≡ some p)
        × ((p.cyclic ≡ true) ⊎ (sizes p.offs ≡ p.total_size))
        × (p.id ≡ d.id)
        × (p.src ≡ d.src))

counted-total :
    (p : Pack)
    → IsCounted p
    → p.total_size ≡ p.count_size
    → (p.cyclic ≡ true) ⊎ (sizes p.offs ≡ p.total_size)
counted-total p (inl circle) e = inl circle
counted-total p (inr counted) e = inr (omega arith)

inserted-Sound :
    (d : Datagram) (p : Pack) (packs : List Pack)
    → All IsCounted packs
    → IsCounted p
    → getid packs d.id d.src ≡ some p
    → Sound d (inserted (p.total_size == p.count_size) packs)
inserted-Sound d p packs h hp e = elim (Bool-cases (p.total_size == p.count_size)) [
  | inl full ↦
      let key = getid-has_key packs d.id d.src e in
      rw full (h, (p, e, counted-total p hp (ground arith), key.0, key.1))
  | inr part ↦ rw part h
]

insert_first-Sound : (d : Datagram) → Sound d (insert_first d)
unfolding insert_first sizes
insert_first-Sound d =
    let p : Pack = record {
      id = d.id;
      src = d.src;
      count_size = d.size;
      total_size = if islastfrag d then last_total d else 0;
      offs = d ∷ [];
      cyclic = false;
    } in
    inserted-Sound d p (p ∷ []) (inr (omega arith), tt) (inr (omega arith)) (getid_here p [])

insert_new-Sound :
    (packs : List Pack) (d : Datagram) → All IsCounted packs → Sound d (insert_new packs d)
unfolding insert_new sizes
insert_new-Sound packs d h =
    let p : Pack = record {
      id = d.id;
      src = d.src;
      count_size = d.size;
      total_size = 0;
      offs = d ∷ [];
      cyclic = false;
    } in
    elim (Bool-cases (islastfrag d)) [
      | inl last ↦ rw last tt
      | inr more ↦ rw more (
          inserted-Sound d p (p ∷ packs) (inr (omega arith), h) (inr (omega arith))
            (getid_here p packs))
    ]

counted_in :
    (p : Pack) (ds : List Datagram) (n : ℕ) (cyclic : Bool)
    → HasRoom n p
    → (cyclic ≡ true) ⊎ (sizes ds ≡ p.count_size + n)
    → (cyclic ≡ true) ⊎ (sizes ds ≡ (p.count_size + n) % size_mod)
counted_in p ds n cyclic room (inl circle) = inl circle
counted_in p ds n cyclic room (inr fits) = inr (omega arith)

count_in-Sound :
    (packs : List Pack) (d : Datagram) (p : Pack) (ds : List Datagram) (cyclic : Bool)
    → All IsCounted packs
    → getid packs d.id d.src ≡ some p
    → HasRoom d.size p
    → (cyclic ≡ true) ⊎ (sizes ds ≡ p.count_size + d.size)
    → Sound d (count_in packs d p ds cyclic)
count_in-Sound packs d p ds cyclic h e room fits =
    let key = getid-has_key packs d.id d.src e in
    let p' : Pack = record p {
      count_size = (p.count_size + d.size) % size_mod;
      total_size = if islastfrag d then last_total d else p.total_size;
      offs = ds;
      cyclic = cyclic;
    } in
    let counted : IsCounted p' = counted_in p ds d.size cyclic room fits in
    inserted-Sound d p' (update_id packs d.id d.src p')
      (update_id-All IsCounted packs d.id d.src p' h counted) counted
      (getid-update_id packs d.id d.src p' e key.0 key.1)

insert_more-Sound :
    (packs : List Pack) (d : Datagram) (p : Pack) (r : Added)
    → All IsCounted packs
    → getid packs d.id d.src ≡ some p
    → HasRoom d.size p
    → (p.cyclic ≡ true) ⊎ HasSize (p.count_size + d.size) r
    → Sound d (insert_more packs d p r)
unfolding insert_more
insert_more-Sound packs d p broken h e room fits = tt
insert_more-Sound packs d p endless h e room fits = tt
insert_more-Sound packs d p duplicate h e room fits = h
insert_more-Sound packs d p (added ds) h e room fits =
    count_in-Sound packs d p ds p.cyclic h e room fits
insert_more-Sound packs d p (looped ds) h e room fits =
    count_in-Sound packs d p ds true h e room (inl refl)

-- A packet whose list has an end gets the bytes of the new fragment.
addoffset-counted :
    (p : Pack) (d : Datagram)
    → IsCounted p
    → (p.cyclic ≡ true) ⊎ HasSize (p.count_size + d.size) (addoffset p.cyclic p.offs d)
addoffset-counted p d (inl circle) = inl circle
addoffset-counted p d (inr counted) = elim (Bool-cases p.cyclic) [
  | inl circle ↦ inl circle
  | inr straight ↦ inr (rw (straight, ← counted) (addoffset-HasSize p.offs d))
]

insert_at-Sound :
    (packs : List Pack) (d : Datagram) (o : Option Pack)
    → All IsCounted packs
    → All (HasRoom d.size) packs
    → getid packs d.id d.src ≡ o
    → Sound d (insert_at packs d o)
unfolding insert_at
insert_at-Sound packs d none h room e = insert_new-Sound packs d h
insert_at-Sound packs d (some p) h room e =
    insert_more-Sound packs d p (addoffset p.cyclic p.offs d) h e
      (getid-All (HasRoom d.size) packs d.id d.src room e)
      (addoffset-counted p d (getid-All IsCounted packs d.id d.src h e))

pub insertoffset-Sound :
    (packs : List Pack) (d : Datagram)
    → All IsCounted packs
    → All (HasRoom d.size) packs
    → Sound d (insertoffset packs d)
unfolding insertoffset
insertoffset-Sound [] d h room = insert_first-Sound d
insertoffset-Sound (p ∷ ps) d h room =
    insert_at-Sound (p ∷ ps) d (getid (p ∷ ps) d.id d.src) h room refl

-- What `getpack` makes of a packet: exactly its `total_size` bytes, and the list without it, or,
-- where its fragments form a circle, a copying without an end.
abbrev pub TakesOut : List Pack → Pack → Got → Type 0
TakesOut packs p result =
    ((p.cyclic ≡ true) × (result ≡ undefined))
    ⊎ ((p.cyclic ≡ false) × (result ≡ got (joined p.offs) p.total_size (removeid packs p.id p.src)))

get_from-TakesOut :
    (packs : List Pack) (p : Pack)
    → (p.cyclic ≡ true) ⊎ (sizes p.offs ≡ p.total_size)
    → TakesOut packs p (get_from packs (some p))
unfolding get_from
get_from-TakesOut packs p full = elim (Bool-cases p.cyclic) [
  | inl circle ↦ inl (circle, rw circle)
  | inr straight ↦ inr (
    straight,
    elim full [
      | inl circle ↦ let f : false ≡ true = sym straight ∙ circle in cc
      | inr e ↦
          let sum : (sizes p.offs == p.total_size) ≡ true = eq→== (sizes p.offs) p.total_size e in
          rw (straight, sum)
    ],
  )
]

-- Let the counters be right, wherever the list of a packet's fragments has an end, and not
-- overflow. Then a call of `insertoffset` that reports a complete packet leaves them right, and
-- the `getpack` that follows finds the packet. If the list of its fragments has an end, `getpack`
-- writes exactly the `total_size` bytes that it allocates, takes the packet out, and leaves the
-- counters right; if an insertion has closed the list to a circle, its copying does not end.
pub getpack-insertoffset :
    (packs : List Pack) (d : Datagram) {packs' : List Pack}
    → All IsCounted packs
    → All (HasRoom d.size) packs
    → insertoffset packs d ≡ inserted true packs'
    → All IsCounted packs'
      × ((p : Pack) × (getid packs' d.id d.src ≡ some p)
          × (p.id ≡ d.id)
          × (p.src ≡ d.src)
          × TakesOut packs' p (getpack packs' d.id d.src))
      × All IsCounted (removeid packs' d.id d.src)
unfolding getpack
getpack-insertoffset packs d {packs'} h room e =
    let ok : Sound d (inserted true packs') =
      subst (Sound d) e (insertoffset-Sound packs d h room) in
    let p = ok.1.0 in
    let out : TakesOut packs' p (get_from packs' (getid packs' d.id d.src)) =
      subst (λ o. TakesOut packs' p (get_from packs' o)) (sym ok.1.1)
        (get_from-TakesOut packs' p ok.1.2) in
    (ok.0, (p, ok.1.1, ok.1.3, ok.1.4, out), removeid-All IsCounted packs' d.id d.src ok.0)
