-- ===== src/Net/Routes.antt =====
-- The routing table of net_layer/net_layer.c: its start, the routes that neighbours tell, and
-- links that are switched off and on.
pub mod Laws
use network_layer_full.Base.{
  ℕ, zero, suc, ◌+◌, ◌-◌, ◌%◌, ◌^◌, Bool, true, false, ◌&&◌, ◌||◌, not, Option, none, some, List,
  [], ◌∷◌, ◌++◌, if◌then◌else◌, leb, ltb, ◌==◌, ◌>>=◌, u8, le_bytes, read_le,
}
use network_layer_full.Base.Int.{ℤ, pos, negsuc}
use network_layer_full.Topology.{max_hosts}

-- `routetable_t`
pub record Route : Type 0 where
  pub dest : ℕ
  pub cost : ℕ
  pub gateway : ℕ

-- INFINITE_ROUTE
abbrev pub infinite_route : ℕ
infinite_route = 0

-- `num_global`, `neighbors` and `routes`; the arrays are read at indices below `max_hosts`.
pub record Routing : Type 0 where
  pub num : ℕ
  pub neighbors : ℕ → ℕ
  pub routes : ℕ → Route

abbrev pub is_minus_one : ℤ → Bool
is_minus_one (pos n) = false
is_minus_one (negsuc n) = n == 0

unfoldable pub neighbors_init : (ℕ → ℤ) → Routing → Routing
neighbors_init way s = record s {
  neighbors =
      λ i. if ltb i max_hosts then (if is_minus_one (way i) then 0 else 1) else s.neighbors i;
}

unfoldable pub fillallroutes : Routing → Routing
fillallroutes s = record s {
  routes = λ i.
      if ltb i max_hosts
      then record { dest = u8 (i + 1); cost = infinite_route; gateway = infinite_route }
      else s.routes i;
}

-- The first loop of `internalsendroute`: the host itself and its neighbours.
unfoldable pub add_neighbors : Routing → Routing
add_neighbors s = record s {
  routes = λ i.
      if ltb i max_hosts && (s.neighbors i == 1 || i + 1 == s.num)
      then record (s.routes i) { gateway = s.num; cost = 1 }
      else s.routes i;
}

-- A host number that is an index plus one, in range.
abbrev pub is_host : ℕ → Bool
is_host n = leb 1 n && leb n max_hosts

abbrev pub set_route : Routing → ℕ → ℕ → ℕ → Routing
set_route s i cost gateway = record s {
  routes =
      λ j. if j == i then record (s.routes j) { cost = cost; gateway = gateway } else s.routes j;
}

-- The update under the lock of `internalhandleroute`.
unfoldable pub learn : Routing → Route → Routing
learn s r =
    if (s.routes (r.dest - 1)).cost == infinite_route || ltb r.cost (s.routes (r.dest - 1)).cost
    then set_route s (r.dest - 1) r.cost r.gateway
    else s

-- `internalhandleroute`; `none` is an access outside the table.
unfoldable pub handle_route : Routing → Route → Option Routing
unfolding learn
handle_route s r = if is_host r.dest then some (learn s r) else none

-- The neighbour and the routes over it are cleared.
unfoldable pub forget : Routing → ℕ → Routing
forget s host = record s {
  neighbors = λ i. if i == host - 1 then 0 else s.neighbors i;
  routes = λ i.
      if i == host - 1 || (ltb i max_hosts && (s.routes i).gateway == host)
      then record (s.routes i) { cost = infinite_route; gateway = infinite_route }
      else s.routes i;
}

unfoldable pub disable_route : Routing → ℕ → Option Routing
unfolding forget
disable_route s host = if is_host host then some (forget s host) else none

unfoldable pub attach : Routing → ℕ → Routing
attach s host = record (set_route s (host - 1) 1 host) {
  neighbors = λ i. if i == host - 1 then 1 else s.neighbors i;
}

unfoldable pub enable_route : Routing → ℕ → Option Routing
unfolding attach
enable_route s host = if is_host host then some (attach s host) else none

unfoldable pub hostreachable : Routing → ℕ → ℕ
hostreachable s dest =
    if dest == 0 || leb max_hosts (dest - 1)
    then 0
    else (if (s.routes (dest - 1)).gateway == infinite_route
        then 0
        else (if (s.routes (dest - 1)).gateway == s.num
            then dest
            else (s.routes (dest - 1)).gateway))

-- What is told of a route: `cost` is a `uint8_t`, and the gateway is the sender.
unfoldable pub told : Routing → Route → Route
told s r = record { dest = r.dest; cost = u8 (r.cost + 1); gateway = s.num }

-- The routes told to one neighbour: hosts i to i + n - 1.
unfoldable pub told_routes : Routing → ℕ → ℕ → List Route
unfolding told
told_routes s i zero = []
told_routes s i (suc n) =
    let rest = told_routes s (i + 1) n in
    if (s.routes i).cost == 0 then rest else told s (s.routes i) ∷ rest

abbrev pub addressed : ℕ → List Route → List (ℕ × Route)
addressed dest [] = []
addressed dest (r ∷ rs) = (dest, r) ∷ addressed dest rs

-- One sweep of the endless loop of `internalsendroute`, with a table that does not change
-- meanwhile: the calls of `net_send`, with the host each is for.
unfoldable pub sweep : Routing → ℕ → ℕ → List (ℕ × Route)
unfolding told_routes
sweep s i zero = []
sweep s i (suc n) =
    let rest = sweep s (i + 1) n in
    if s.neighbors i == 1 then addressed (i + 1) (told_routes s 0 max_hosts) ++ rest else rest

unfoldable pub internalsendroute : Routing → List (ℕ × Route)
unfolding sweep
internalsendroute s = sweep s 0 max_hosts

-- A `routetable_t` in memory, as it travels in a packet.
unfoldable pub route_bytes : Route → List ℕ
route_bytes r = le_bytes 1 r.dest ++ (le_bytes 1 r.cost ++ le_bytes 2 r.gateway)

unfoldable pub read_route : List ℕ → Option Route
read_route bytes = do
  (dest, r) ← read_le 1 bytes
  (cost, r) ← read_le 1 r
  (gateway, r) ← read_le 2 r
  some (record { dest = dest; cost = cost; gateway = gateway })
