-- ===== src/Startup/Agreement.antt =====
-- Hosts that start with the same file agree on their links, if no digit lies behind its numbers.
use network_layer_full.Base.{
  ℕ, ◌-◌, ◌≤◌, ◌<◌, ◌≡◌, refl, sym, ◌∙◌, subst, true, Bool-cases, ◌&&◌, inl, inr, Option,
  Option-cases, none, some, List, [], arith, if◌then◌else◌, leb, ltb, lt→ltb, replicate,
}
use network_layer_full.Base.Int.{ℤ}
use network_layer_full.Config.{Topo, file_lines, readconfig}
use network_layer_full.Config.Laws.{Post, bind-any, readconfig-IsSymmetric}
use network_layer_full.Net.Routes.{
  Routing, is_minus_one, neighbors_init, fillallroutes, add_neighbors,
}
use network_layer_full.Net.Routes.Laws.{IsRouted, init-IsRouted}
use network_layer_full.Net.Send.{WaitListItem}
use network_layer_full.Net.WaitList.{Semaphores}
use network_layer_full.Net.WaitList.Queue.{Represents, IsNew, initial-Represents}
use network_layer_full.Config.Stack.{Ends, readconfig-any_stack}
use network_layer_full.Startup.{Started, way_of, net_init, transport_init, start_from, main}
use network_layer_full.Topology.{max_hosts, Host, Links, initlinks, getmtu, findhost}
use network_layer_full.Topology.Laws.{IsSymmetric}

-- What a host has when it has started.
pub record IsStarted (zeroes : Routing) (no_item : WaitListItem) (sems : Semaphores) (num : ℕ)
    (links : Links) (s : Started) : Type 0 where
  pub low : 1 ≤ num
  pub high : num ≤ 6
  pub same : s.links ≡ links
  pub net : s.net ≡ net_init zeroes no_item sems num (links (num - 1))
  pub table : s.points ≡ transport_init

start_from-IsStarted :
    (zeroes : Routing) (no_item : WaitListItem) (sems : Semaphores) (num : ℕ) (t : Topo)
    → Post (IsStarted zeroes no_item sems num t.0) (start_from zeroes no_item sems num t)
unfolding start_from way_of
start_from-IsStarted zeroes no_item sems num (links, hosts) =
    bind-any (IsStarted zeroes no_item sems num links) (findhost hosts num) _ (λ me.
      elim (Bool-cases (leb 1 num && leb num max_hosts)) [
        | inl inside ↦ rw inside (record {
          low = ground arith;
          high = ground arith;
          same = refl;
          net = refl;
          table = refl;
        })
        | inr outside ↦ rw outside tt
      ])

initlinks-IsSymmetric : IsSymmetric initlinks
unfolding initlinks
initlinks-IsSymmetric i j = refl

neighbors_at :
    (zeroes : Routing) (no_item : WaitListItem) (sems : Semaphores) (num i : ℕ) (way : ℕ → ℤ)
    → i < 6
    → (net_init zeroes no_item sems num way).routing.neighbors i
      ≡ (if is_minus_one (way i) then 0 else 1)
unfolding net_init neighbors_init fillallroutes
neighbors_at zeroes no_item sems num i way h =
    let inside : ltb i max_hosts ≡ true = lt→ltb i max_hosts h in rw inside

-- A host that starts has read a symmetric table of links.
pub main-IsStarted :
    (inet_pton : List ℕ → Option ℕ) (no_host : Host) (zeroes : Routing) (no_item : WaitListItem)
    (sems : Semaphores) (stack : ℕ → List ℕ) (file : Option (List (List ℕ))) (num : ℕ) (s : Started)
    → main inet_pton no_host zeroes no_item sems stack file num ≡ some s
    → (links : Links) × IsSymmetric links × IsStarted zeroes no_item sems num links s
unfolding main
main-IsStarted inet_pton no_host zeroes no_item sems stack file num s e =
    elim (Option-cases
      (readconfig inet_pton (file_lines stack file) initlinks (replicate max_hosts no_host))) [
        | inl nothing ↦ let f : ◌≡◌ {A = Option Started} none (some s) = rw nothing at e in cc
        | inr ((links, hosts), read) ↦ (
          links,
          readconfig-IsSymmetric inet_pton (file_lines stack file) initlinks links
              (replicate max_hosts no_host) hosts initlinks-IsSymmetric read,
          subst (Post (IsStarted zeroes no_item sems num links)) (rw read at e)
              (start_from-IsStarted zeroes no_item sems num (links, hosts)),
        )
      ]

-- Two hosts start with the same file, each with bytes of its own on the stack, but neither with a
-- digit behind a number of the file. Then they have the same table of links, each has the same MTU
-- for the other, and the one is a neighbour of the other exactly when the other is one of it. Each
-- has, once it has added its neighbours, a route table whose gateways are neighbours, and the
-- first an empty ring if its semaphores are new.
pub main-agree :
    (inet_pton : List ℕ → Option ℕ) (no_host : Host) (zeroes : Routing) (no_item : WaitListItem)
    (sems sems' : Semaphores) (stack stack' : ℕ → List ℕ) (file : Option (List (List ℕ))) (a b : ℕ)
    (s s' : Started)
    → Ends stack
    → Ends stack'
    → IsNew sems
    → main inet_pton no_host zeroes no_item sems stack file a ≡ some s
    → main inet_pton no_host zeroes no_item sems' stack' file b ≡ some s'
    → (s.links ≡ s'.links)
      × (getmtu s.links a b ≡ getmtu s'.links b a)
      × (s.net.routing.neighbors (b - 1) ≡ s'.net.routing.neighbors (a - 1))
      × Represents s.net.waiting []
      × IsRouted (add_neighbors s.net.routing)
      × IsRouted (add_neighbors s'.net.routing)
unfolding main getmtu
main-agree inet_pton no_host zeroes no_item sems sems' stack stack' file a b s s' h h' new e e' =
    let hosts0 = replicate max_hosts no_host in
    let same = readconfig-any_stack inet_pton stack stack' file initlinks hosts0 h h' in
    elim (Option-cases (readconfig inet_pton (file_lines stack file) initlinks hosts0)) [
      | inl nothing ↦ let f : ◌≡◌ {A = Option Started} none (some s) = rw nothing at e in cc
      | inr ((links, hosts), read) ↦
          let symmetric =
            readconfig-IsSymmetric inet_pton (file_lines stack file) initlinks links hosts0 hosts
              initlinks-IsSymmetric read in
          let v =
            subst (Post (IsStarted zeroes no_item sems a links)) (rw read at e)
              (start_from-IsStarted zeroes no_item sems a (links, hosts)) in
          let v' =
            subst (Post (IsStarted zeroes no_item sems' b links)) (rw (sym same ∙ read) at e')
              (start_from-IsStarted zeroes no_item sems' b (links, hosts)) in
          let cell : links (a - 1) (b - 1) ≡ links (b - 1) (a - 1) = symmetric (a - 1) (b - 1) in
          let in_a : (leb 1 a && leb a 6) ≡ true = ground (arith, v.low, v.high) in
          let in_b : (leb 1 b && leb b 6) ≡ true = ground (arith, v'.low, v'.high) in
          let left =
            neighbors_at zeroes no_item sems a (b - 1) (links (a - 1))
              (omega (arith, v'.low, v'.high)) in
          let right =
            neighbors_at zeroes no_item sems' b (a - 1) (links (b - 1))
              (omega (arith, v.low, v.high)) in
          (
            v.same ∙ sym v'.same,
            rw (v.same, v'.same, in_a, in_b, cell),
            rw (v.net, v'.net, left, right, cell),
            rw v.net (unfold net_init in initial-Represents no_item sems new),
            rw v.net (
                unfold net_init in
                init-IsRouted (links (a - 1)) (record zeroes { num = a }) (omega (arith, v.low))),
            rw v'.net (
                unfold net_init in
                init-IsRouted (links (b - 1)) (record zeroes { num = b }) (omega (arith, v'.low))),
          )
    ]
