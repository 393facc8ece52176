-- ===== src/Application/Menu/Start.antt =====
-- A host from its start on: `main` of project.c and the menu of
-- application_layer/application_layer.c.
use network_layer_full.Base.{
  ℕ, zero, suc, ◌-◌, ◌≡◌, ◌⊎◌, refl, sym, ap, subst, Option, none, some, List, arith, All, length,
  replicate,
}
use network_layer_full.Application.Menu.{HostState}
use network_layer_full.Application.Menu.Invariant.{Reach-IsHost}
use network_layer_full.Application.Menu.Options.{IsHost, IsSlot}
use network_layer_full.Application.Menu.Steps.{Reach}
use network_layer_full.Garbler.{set_garbler}
use network_layer_full.Net.Routes.{
  Routing, add_neighbors, hostreachable, neighbors_init, fillallroutes,
}
use network_layer_full.Net.Routes.Laws.{init-IsRouted, next_hop}
use network_layer_full.Net.Send.{WaitListItem}
use network_layer_full.Net.WaitList.{Semaphores}
use network_layer_full.Startup.{Started, main, link_init, net_init, transport_init}
use network_layer_full.Startup.Agreement.{IsStarted, main-IsStarted}
use network_layer_full.Topology.{Host, Links, getmtu}
use network_layer_full.Topology.Laws.{IsSymmetric}
use network_layer_full.Transport.Point.{ServicePoint}

-- When the thread that tells routes has added the neighbours.
unfoldable pub start_host : Started → HostState
unfolding link_init
start_host s = record {
  points = s.points;
  net = record (s.net) { routing = add_neighbors s.net.routing };
  link = link_init s.me s.hosts s.links;
}

free-All :
    (n : ℕ)
    → All IsSlot (replicate n none) × (length {A = Option ServicePoint} (replicate n none) ≡ n)
free-All zero = (tt, refl)
free-All (suc n) = ((tt, (free-All n).0), ap suc (free-All n).1)

getmtu-symmetric :
    (links : Links) (a b : ℕ) → IsSymmetric links → getmtu links a b ≡ getmtu links b a
unfolding getmtu
getmtu-symmetric links a b h = ground (arith, h (a - 1) (b - 1))

start_host-IsHost :
    (zeroes : Routing) (no_item : WaitListItem) (sems : Semaphores) (num : ℕ) (links : Links)
    (s : Started)
    → IsSymmetric links
    → IsStarted zeroes no_item sems num links s
    → IsHost num (start_host s)
unfolding start_host link_init net_init transport_init set_garbler add_neighbors fillallroutes
    neighbors_init
start_host-IsHost zeroes no_item sems num links s h v = record {
  sized = rw v.table (free-All 16).1;
  points_in = subst (All IsSlot) (sym v.table) (free-All 16).0;
  numbered = rw v.net refl;
  routed =
      rw v.net
        (init-IsRouted (links (num - 1)) (record zeroes { num = num }) (omega (arith, v.low)));
  symmetric = subst IsSymmetric (sym v.same) h;
  percents = record {
    loss_nonneg = refl;
    corruption_nonneg = refl;
    duplication_nonneg = refl;
    total = omega arith;
  };
}

-- A host of number `num` that has started with any file, whatever its stack and its semaphores
-- held, and has added its neighbours to its route table, whatever is chosen from its menu (no link
-- of the host to itself switched off or on) and whatever turns its threads take (routes being told
-- with a cost, by a neighbour as gateway, and `recv_thread` reading no segment that has been
-- freed): there are 16 slots for service points, and every point in them is in one of the four
-- states of a connection and awaits only sequence numbers; the route table is consistent and the
-- host's own; in the host's own table every link has the same MTU for both directions; the
-- garbler's percentages are nonnegative and add up to at most 100; and the next hop to any host is
-- absent, the host itself, or a neighbour at that time.
pub main-IsHost :
    (inet_pton : List ℕ → Option ℕ) (no_host : Host) (zeroes : Routing) (no_item : WaitListItem)
    (sems : Semaphores) (stack : ℕ → List ℕ) (file : Option (List (List ℕ))) (num dest a b : ℕ)
    (s : Started) (h : HostState)
    → main inet_pton no_host zeroes no_item sems stack file num ≡ some s
    → Reach num (start_host s) h
    → IsHost num h
      × (getmtu h.link.links a b ≡ getmtu h.link.links b a)
      × ((hostreachable h.net.routing dest ≡ 0)
          ⊎ (hostreachable h.net.routing dest ≡ num)
          ⊎ (h.net.routing.neighbors (hostreachable h.net.routing dest - 1) ≡ 1))
main-IsHost inet_pton no_host zeroes no_item sems stack file num dest a b s h e r =
    let start = main-IsStarted inet_pton no_host zeroes no_item sems stack file num s e in
    let v =
      Reach-IsHost num (start_host-IsHost zeroes no_item sems num start.0 s start.1 start.2) r in
    let hop =
      subst
        (λ (n : ℕ).
          (hostreachable h.net.routing dest ≡ 0)
          ⊎ (hostreachable h.net.routing dest ≡ n)
          ⊎ (h.net.routing.neighbors (hostreachable h.net.routing dest - 1) ≡ 1))
        v.numbered (next_hop h.net.routing dest v.routed) in
    (v, getmtu-symmetric h.link.links a b v.symmetric, hop)
