-- ===== src/Net/Routes/Laws.antt =====
-- The table stays consistent, routes go over neighbours, and none goes over a link that is off.
use network_layer_full.Base.{
  ℕ, ◌+◌, ◌-◌, ◌<◌, ◌≡◌, ◌≢◌, ◌⊎◌, ◌↔◌, inl, inr, true, none, some, arith, if◌then◌else◌, ◌==◌,
  Bool-cases, subst, min,
}
use network_layer_full.Base.Int.{ℤ}
use network_layer_full.Topology.{max_hosts}
use network_layer_full.Net.Routes.{
  Route, Routing, neighbors_init, fillallroutes, add_neighbors, learn, handle_route, forget, attach,
  disable_route, enable_route, hostreachable, is_host,
}

-- The entry of host i + 1: it names its host, it has a cost exactly when it has a gateway, and
-- a gateway is a neighbour, or this host itself for a neighbour or for itself.
pub record IsEntry (num : ℕ) (neighbors : ℕ → ℕ) (i : ℕ) (r : Route) : Type 0 where
  pub named : r.dest ≡ i + 1
  pub priced : (r.cost ≡ 0) ↔ (r.gateway ≡ 0)
  pub over :
      (r.gateway ≡ 0)
      ⊎ ((r.gateway ≡ num) × ((neighbors i ≡ 1) ⊎ (i + 1 ≡ num)))
      ⊎ ((r.gateway ≢ num) × (neighbors (r.gateway - 1) ≡ 1))

abbrev pub IsRouted : Routing → Type 0
IsRouted s = (s.num ≢ 0) × ((i : ℕ) → i < max_hosts → IsEntry s.num s.neighbors i (s.routes i))

some_injective : {A : Type 0} {p q : A} → some p ≡ some q → p ≡ q
some_injective e = cc

-- What `net_init` sets up.
pub init-IsRouted :
    (way : ℕ → ℤ) (s : Routing)
    → s.num ≢ 0
    → IsRouted (add_neighbors (fillallroutes (neighbors_init way s)))
unfolding add_neighbors fillallroutes neighbors_init
init-IsRouted way s h = (h, λ i lt. ground arith)

-- An operation that refuses hosts out of range and is otherwise total.
pub when_host :
    {A : Type 0} (host : ℕ) (a : A) {b : A}
    → (if is_host host then some a else none) ≡ some b
    → (is_host host ≡ true) × (a ≡ b)
when_host host a {b = b} e = elim (Bool-cases (is_host host)) [
  | inl ok ↦ let e' : some a ≡ some b = rw ok at e in (ok, some_injective e')
  | inr bad ↦ let e' : none ≡ some b = rw bad at e in cc
]

-- A neighbour's route.
pub record IsTold (s : Routing) (r : Route) : Type 0 where
  pub priced : r.cost ≢ 0
  pub from_host : r.gateway ≢ 0
  pub from_other : r.gateway ≢ s.num
  pub from_neighbor : s.neighbors (r.gateway - 1) ≡ 1

learn-IsRouted :
    (s : Routing) (r : Route)
    → IsRouted s
    → IsTold s r
    → is_host r.dest ≡ true
    → IsRouted (learn s r)
unfolding learn
learn-IsRouted s r v t h = (ground (arith, v.0), λ i lt. ground (arith, v.0, v.1 i lt))

forget-IsRouted :
    (s : Routing) (host : ℕ)
    → IsRouted s
    → host ≢ s.num
    → is_host host ≡ true
    → IsRouted (forget s host)
unfolding forget
forget-IsRouted s host v hn h = (v.0, λ i lt. ground (arith, v.0, v.1 i lt))

attach-IsRouted :
    (s : Routing) (host : ℕ)
    → IsRouted s
    → host ≢ s.num
    → is_host host ≡ true
    → IsRouted (attach s host)
unfolding attach
attach-IsRouted s host v hn h = (v.0, λ i lt. ground (arith, v.0, v.1 i lt))

-- The operations on the table, by whom they are called: a message of a neighbour, and the user.
pub data Step (s : Routing) : Routing → Type 0 where
  learned : (r : Route) {s' : Routing} → IsTold s r → handle_route s r ≡ some s' → Step s s'
  disabled : (host : ℕ) {s' : Routing} → host ≢ s.num → disable_route s host ≡ some s' → Step s s'
  enabled : (host : ℕ) {s' : Routing} → host ≢ s.num → enable_route s host ≡ some s' → Step s s'

pub data Reach (s : Routing) : Routing → Type 0 where
  here : Reach s s
  next : {t u : Routing} → Reach s t → Step t u → Reach s u

pub Step-IsRouted : {s s' : Routing} → Step s s' → IsRouted s → IsRouted s'
unfolding handle_route disable_route enable_route
Step-IsRouted {s} {s'} (learned r t e) v =
    let ok = when_host r.dest (learn s r) e in subst IsRouted ok.1 (learn-IsRouted s r v t ok.0)
Step-IsRouted {s} {s'} (disabled host hn e) v =
    let ok = when_host host (forget s host) e in
    subst IsRouted ok.1 (forget-IsRouted s host v hn ok.0)
Step-IsRouted {s} {s'} (enabled host hn e) v =
    let ok = when_host host (attach s host) e in
    subst IsRouted ok.1 (attach-IsRouted s host v hn ok.0)

Reach-IsRouted : {s s' : Routing} → IsRouted s → Reach s s' → IsRouted s'
Reach-IsRouted v here = v
Reach-IsRouted v (next r st) = Step-IsRouted st (Reach-IsRouted v r)

pub next_hop :
    (s : Routing) (dest : ℕ)
    → IsRouted s
    → (hostreachable s dest ≡ 0)
      ⊎ (hostreachable s dest ≡ s.num)
      ⊎ (s.neighbors (hostreachable s dest - 1) ≡ 1)
unfolding hostreachable
next_hop s dest v = ground (arith, v.0, v.1 (dest - 1))

-- From the state that `net_init` sets up, whatever routes neighbours tell (with a cost, and the
-- neighbour as gateway) and whatever links to other hosts are switched off and on: the table is
-- consistent, and the next hop to any destination is absent, the host itself, or a host that is a
-- neighbour at that time.
pub Reach-next_hop :
    (way : ℕ → ℤ) (s : Routing) {s' : Routing} (dest : ℕ)
    → s.num ≢ 0
    → Reach (add_neighbors (fillallroutes (neighbors_init way s))) s'
    → IsRouted s'
      × ((hostreachable s' dest ≡ 0)
          ⊎ (hostreachable s' dest ≡ s'.num)
          ⊎ (s'.neighbors (hostreachable s' dest - 1) ≡ 1))
Reach-next_hop way s {s'} dest h r =
    let v = Reach-IsRouted (init-IsRouted way s h) r in (v, next_hop s' dest v)

hostreachable-forget :
    (s : Routing) (host dest : ℕ)
    → host ≢ s.num
    → is_host host ≡ true
    → hostreachable (forget s host) dest ≢ host
unfolding hostreachable forget
hostreachable-forget s host dest hn h = ground arith

forget_other :
    (s : Routing) (host dest : ℕ)
    → host ≢ s.num
    → is_host host ≡ true
    → (dest ≡ host)
      ⊎ ((s.routes (dest - 1)).gateway ≡ host)
      ⊎ (hostreachable (forget s host) dest ≡ hostreachable s dest)
unfolding hostreachable forget
forget_other s host dest hn h = ground arith

-- After a link to another host is switched off, no destination is reached over that host; and
-- every other destination that was not reached over it is reached as before.
pub disable_route_lem :
    (s : Routing) (host dest : ℕ) {s' : Routing}
    → host ≢ s.num
    → disable_route s host ≡ some s'
    → (hostreachable s' dest ≢ host)
      × ((dest ≡ host)
          ⊎ ((s.routes (dest - 1)).gateway ≡ host)
          ⊎ (hostreachable s' dest ≡ hostreachable s dest))
unfolding disable_route
disable_route_lem s host dest {s'} hn e =
    let ok = when_host host (forget s host) e in
    let P = λ (t : Routing).
      (hostreachable t dest ≢ host)
      × ((dest ≡ host)
          ⊎ ((s.routes (dest - 1)).gateway ≡ host)
          ⊎ (hostreachable t dest ≡ hostreachable s dest)) in
    subst P ok.1 (hostreachable-forget s host dest hn ok.0, forget_other s host dest hn ok.0)

learn_lem :
    (s : Routing) (r : Route)
    → ((learn s r).routes (r.dest - 1)).cost ≡ (
        if (s.routes (r.dest - 1)).cost == 0
        then r.cost
        else min r.cost (s.routes (r.dest - 1)).cost)
unfolding learn
learn_lem s r = ground arith

learn-other : (s : Routing) (r : Route) (i : ℕ) → i ≢ r.dest - 1 → (learn s r).routes i ≡ s.routes i
unfolding learn
learn-other s r i ne = ground arith

-- A told route with a cost sets the entry's cost to the smaller of the two costs, or to its own
-- if the host had no route, and changes no other entry.
pub handle_route_lem :
    (s : Routing) (r : Route) (i : ℕ) {s' : Routing}
    → i ≢ r.dest - 1
    → handle_route s r ≡ some s'
    → ((s'.routes (r.dest - 1)).cost ≡ (
        if (s.routes (r.dest - 1)).cost == 0
        then r.cost
        else min r.cost (s.routes (r.dest - 1)).cost))
      × (s'.routes i ≡ s.routes i)
unfolding handle_route
handle_route_lem s r i {s'} ne e =
    let ok = when_host r.dest (learn s r) e in
    let P = λ (t : Routing).
      ((t.routes (r.dest - 1)).cost ≡ (
        if (s.routes (r.dest - 1)).cost == 0
        then r.cost
        else min r.cost (s.routes (r.dest - 1)).cost))
      × (t.routes i ≡ s.routes i) in
    subst P ok.1 (learn_lem s r, learn-other s r i ne)
