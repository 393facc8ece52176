-- ===== src/Net/Packs/Partly.antt =====
-- An entry of which the first fragments have arrived, in order.
use network_layer_full.Base.{
  ℕ, ◌+◌, ◌%◌, ◌^◌, ◌≤◌, ◌<◌, ◌≡◌, false, List, [], ◌∷◌, ◌++◌, append-nil, append_assoc, arith,
  take, drop, take-append-drop, size_mod, ne→not_==,
}
use network_layer_full.Net.Datagram.{Datagram, offset_of}
use network_layer_full.Net.Packs.{Pack, added, walk, joined, sizes}

-- The node `x` and those after it hold fragments of `fs` bytes up to `position`.
abbrev pub UpTo : ℕ → ℕ → Datagram → List Datagram → Type 0
UpTo fs position x [] = offset_of x.frag + fs ≡ position
UpTo fs position x (y ∷ ys) = (offset_of x.frag + fs + fs ≤ position) × UpTo fs position y ys

-- The next fragment goes to the end.
pub walk_next :
    (fs position : ℕ) (x : Datagram) (xs : List Datagram) (d : Datagram)
    → 0 < fs
    → position ≤ 2 ^ 15
    → UpTo fs position x xs
    → offset_of d.frag ≡ position
    → d.size ≤ fs
    → walk x xs d ≡ added (x ∷ (xs ++ (d ∷ [])))
unfolding walk
walk_next fs position x [] d pos top up e small =
    let new = ne→not_== (offset_of x.frag) (offset_of d.frag) (omega arith) in rw new
walk_next fs position x (y ∷ ys) d pos top up e small =
    let on = ne→not_== ((offset_of x.frag + d.size) % size_mod) (offset_of d.frag) (omega arith) in
    rw (on, walk_next fs position y ys d pos top up.1 e small)

pub UpTo-next :
    (fs position : ℕ) (x : Datagram) (xs : List Datagram) (d : Datagram)
    → UpTo fs position x xs
    → offset_of d.frag ≡ position
    → UpTo fs (position + fs) x (xs ++ (d ∷ []))
UpTo-next fs position x [] d up e = (omega arith, omega arith)
UpTo-next fs position x (y ∷ ys) d up e = (omega arith, UpTo-next fs position y ys d up.1 e)

pub joined-snoc :
    (ds : List Datagram) (d : Datagram)
    → joined (ds ++ (d ∷ [])) ≡ joined ds ++ take d.size d.payload
unfolding joined
joined-snoc [] d = append-nil (take d.size d.payload)
joined-snoc (x ∷ xs) d =
    rw (joined-snoc xs d, append_assoc (take x.size x.payload) (joined xs) (take d.size d.payload))

pub joined_step :
    (ds : List Datagram) (d : Datagram) (fs : ℕ) (rest : List ℕ)
    → take d.size d.payload ≡ take fs rest
    → joined (ds ++ (d ∷ [])) ++ drop fs rest ≡ joined ds ++ rest
joined_step ds d fs rest e = rw (
  joined-snoc ds d,
  e,
  append_assoc (joined ds) (take fs rest) (drop fs rest),
  take-append-drop fs rest,
)

pub sizes-snoc : (ds : List Datagram) (d : Datagram) → sizes (ds ++ (d ∷ [])) ≡ sizes ds + d.size
unfolding sizes
sizes-snoc [] d = omega arith
sizes-snoc (x ∷ xs) d = omega (arith, sizes-snoc xs d)

-- The entry of a packet of which the first `position` bytes have arrived.
pub record Partly (fs position : ℕ) (x : Datagram) (xs : List Datagram) (p : Pack) : Type 0 where
  pub nodes : p.offs ≡ x ∷ xs
  pub up : UpTo fs position x xs
  pub counted : p.count_size ≡ position
  pub summed : sizes (x ∷ xs) ≡ position
  pub open_end : p.total_size ≡ 0
  pub straight : p.cyclic ≡ false
