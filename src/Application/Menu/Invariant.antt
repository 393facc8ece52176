-- ===== src/Application/Menu/Invariant.antt =====
-- What holds at a host whatever is chosen from its menu and whatever its threads do.
use network_layer_full.Base.{
  ℕ, ◌≡◌, inl, inr, refl, sym, ap, subst, ◌∙◌, Bool-cases, Option, none, some, List, arith, ◌==◌,
  if◌then◌else◌,
}
use network_layer_full.Base.Int.{ℤ}
use network_layer_full.Application.Menu.{HostState, with_link}
use network_layer_full.Application.Menu.Options.{
  IsHost, Good, choose-Good, put-IsHost, get_elem?-IsPoint, send_from-Good, receive_at-Good,
}
use network_layer_full.Application.Menu.Steps.{
  with_net, Step, Reach, chosen, calls_send, calls_recv, arrives, cuts, learns, posts, forwards,
  takes, fills, empties, here, next,
}
use network_layer_full.Link.Laws.{link_send-Sent}
use network_layer_full.Garbler.{sendto_garbled}
use network_layer_full.Garbler.Laws.{IsValid}
use network_layer_full.Link.Codec.{Frame, buildsendframe}
use network_layer_full.Link.Send.{LinkState}
use network_layer_full.Link.Send.{internalsend as link_internalsend}
use network_layer_full.Net.Datagram.{Datagram}
use network_layer_full.Net.Routes.{Route, Routing, handle_route, learn, hostreachable}
use network_layer_full.Net.Routes.Laws.{IsRouted, Step-IsRouted, when_host, learned}
use network_layer_full.Net.Send.{WaitListItem}
use network_layer_full.Net.Sending.{
  NetState, Queued, queued, no_route, waits, enqueue, net_send, net_resend,
}
use network_layer_full.Net.WaitList.{WaitList}
use network_layer_full.Topology.{Host}
use network_layer_full.Topology.Laws.{IsSymmetric}
use network_layer_full.Transport.Kept.{Leaves, recv_thread-Leaves}
use network_layer_full.Transport.Kept.Sending.{GoodTurn, send_thread-GoodTurn}

-- A state of the network layer that has the same route table.
abbrev Keeps : Routing → Queued → Type 0
Keeps routing (queued net) = net.routing ≡ routing
Keeps routing no_route = Unit
Keeps routing waits = Unit

enqueue-Keeps :
    (s : NetState) (item : WaitListItem) (w : Option WaitList)
    → Keeps s.routing (enqueue (record s { wait_item = item }) w)
unfolding enqueue
enqueue-Keeps s item none = tt
enqueue-Keeps s item (some w) = refl

net_send-Keeps :
    (s : NetState) (dest size protocol : ℕ) (bytes : List ℕ)
    → Keeps s.routing (net_send s dest bytes size protocol)
unfolding net_send
net_send-Keeps s dest size protocol bytes =
    elim (Bool-cases ((if protocol == 0 then dest else hostreachable s.routing dest) == 0)) [
      | inl e ↦ rw e tt
      | inr e ↦ rw e (enqueue-Keeps s _ _)
    ]

net_resend-Keeps : (s : NetState) (d : Datagram) → Keeps s.routing (net_resend s d)
unfolding net_resend
net_resend-Keeps s d = elim (Bool-cases (hostreachable s.routing d.dest == 0)) [
  | inl e ↦ rw e refl
  | inr e ↦ rw e (enqueue-Keeps s s.wait_item _)
]

net-IsHost :
    (num : ℕ) (h : HostState) (net : NetState)
    → IsHost num h
    → net.routing ≡ h.net.routing
    → IsHost num (with_net h net)
net-IsHost num h net v e = record {
  sized = v.sized;
  points_in = v.points_in;
  numbered = ap (λ (r : Routing). r.num) e ∙ v.numbered;
  routed = subst IsRouted (sym e) v.routed;
  symmetric = v.symmetric;
  percents = v.percents;
}

link-IsHost :
    (num : ℕ) (h : HostState) (link : LinkState)
    → IsHost num h
    → link.links ≡ h.link.links
    → link.garbler ≡ h.link.garbler
    → IsHost num (with_link h link)
link-IsHost num h link v el eg = record {
  sized = v.sized;
  points_in = v.points_in;
  numbered = v.numbered;
  routed = v.routed;
  symmetric = subst IsSymmetric (sym el) v.symmetric;
  percents = subst IsValid (sym eg) v.percents;
}

-- The turn that empties the slot changes nothing else.
internalsend-same :
    (sendto : ℕ → List ℕ → ℤ) (random1 random2 : ℕ) (s s' : LinkState)
    (slot : Option (Frame × Host)) (messages : List (List ℕ)) (host : Host)
    → s.slot ≡ slot
    → link_internalsend sendto random1 random2 s ≡ some (messages, host, s')
    → record s { slot = none } ≡ s'
unfolding link_internalsend
internalsend-same sendto random1 random2 s s' none messages host es e =
    let e' : ◌≡◌ {A = Option (List (List ℕ) × Host × LinkState)} none (some (messages, host, s')) =
      rw es at e in
    cc
internalsend-same sendto random1 random2 s s' (some (f, to)) messages host es e =
    let e' : ◌≡◌ {A = Option (List (List ℕ) × Host × LinkState)}
        (some (
          (sendto_garbled sendto s.garbler random1 random2 (buildsendframe f).1).0,
          to,
          record s { slot = none },
        ))
        (some (messages, host, s')) =
      rw es at e in
    cc

learn-num : (s : Routing) (r : Route) → (learn s r).num ≡ s.num
unfolding learn
learn-num s r = ground arith

handle_route-num : (s t : Routing) (r : Route) → handle_route s r ≡ some t → t.num ≡ s.num
unfolding handle_route
handle_route-num s t r e =
    sym (ap (λ (u : Routing). u.num) (when_host r.dest (learn s r) e).1) ∙ learn-num s r

Step-IsHost : (num : ℕ) {h h' : HostState} → Step num h h' → IsHost num h → IsHost num h'
Step-IsHost num {h} {h'} (chosen f c value bytes out o e) v =
    subst (Good num) e (choose-Good f num h c v o)
Step-IsHost num {h} {h'} (calls_send sp size value buf bytes out e) v =
    subst (Good num) e (send_from-Good num h sp size buf v)
Step-IsHost num {h} {h'} (calls_recv sp size value bytes out e) v =
    subst (Good num) e (receive_at-Good num h sp size v)
Step-IsHost num {h} {h'} (arrives sp random p p' recv raw raw_fin out at e) v =
    put-IsHost num sp h (some p') v (
      subst Leaves e
        (recv_thread-Leaves p sp recv random raw raw_fin (get_elem?-IsPoint num sp h p v at)))
Step-IsHost num {h} {h'} (cuts sp s s' raw out at e) v =
    put-IsHost num sp h (some s'.point) v
      (subst GoodTurn e (send_thread-GoodTurn s raw (get_elem?-IsPoint num sp h s.point v at)))
Step-IsHost num {h} {h'} (learns r routing t e) v = record {
  sized = v.sized;
  points_in = v.points_in;
  numbered = handle_route-num h.net.routing routing r e ∙ v.numbered;
  routed = Step-IsRouted (learned r t e) v.routed;
  symmetric = v.symmetric;
  percents = v.percents;
}
Step-IsHost num {h} {h'} (posts dest size protocol bytes net e) v =
    net-IsHost num h net v
      (subst (Keeps h.net.routing) e (net_send-Keeps h.net dest size protocol bytes))
Step-IsHost num {h} {h'} (forwards d net e) v =
    net-IsHost num h net v (subst (Keeps h.net.routing) e (net_resend-Keeps h.net d))
Step-IsHost num {h} {h'} (takes item waiting e) v =
    net-IsHost num h (record (h.net) { waiting = waiting }) v refl
Step-IsHost num {h} {h'} (fills dest size bytes link e) v =
    let sent = link_send-Sent h.link link dest size bytes e in
    link-IsHost num h link v (rw sent.filled) (rw sent.filled)
Step-IsHost num {h} {h'} (empties sendto random1 random2 messages host link e) v =
    let same =
      internalsend-same sendto random1 random2 h.link link h.link.slot messages host refl e in
    link-IsHost num h link v (ap (λ (s : LinkState). s.links) (sym same))
      (ap (λ (s : LinkState). s.garbler) (sym same))

pub Reach-IsHost : (num : ℕ) {h h' : HostState} → IsHost num h → Reach num h h' → IsHost num h'
Reach-IsHost num v here = v
Reach-IsHost num v (next r st) = Step-IsHost num st (Reach-IsHost num v r)
