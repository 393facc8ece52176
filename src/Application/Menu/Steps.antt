-- ===== src/Application/Menu/Steps.antt =====
-- A host at work: the options of its menu, with the turns of the threads of all layers in between.
use network_layer_full.Base.{ℕ, ◌≡◌, ◌≢◌, some, List, set, get_elem?}
use network_layer_full.Base.Int.{ℤ}
use network_layer_full.Application.Menu.{
  HostState, Choice, disable, enable, Found, shown, with_points, with_link, at_point, send_from,
  receive_at, choose,
}
use network_layer_full.Link.Send.{LinkState, ok, link_send}
use network_layer_full.Link.Send.{internalsend as link_internalsend}
use network_layer_full.Net.Datagram.{Datagram}
use network_layer_full.Net.Routes.{Route, Routing, handle_route}
use network_layer_full.Net.Routes.Laws.{IsTold}
use network_layer_full.Net.Send.{WaitListItem}
use network_layer_full.Net.Sending.{NetState, queued, net_send, net_resend}
use network_layer_full.Net.WaitList.{WaitList, wait_list_remove}
use network_layer_full.Topology.{Host}
use network_layer_full.Transport.Connect.{Received}
use network_layer_full.Transport.Point.{ServicePoint, Output, done}
use network_layer_full.Transport.Receive.{recv_thread}
use network_layer_full.Transport.Segment.{Segment}
use network_layer_full.Transport.Sender.{Sender, send_thread}

-- Links are switched off and on only to other hosts.
abbrev pub IsToOthers : ℕ → Choice → Type 0
IsToOthers num (disable remote_host) = remote_host ≢ num
IsToOthers num (enable remote_host mtu) = remote_host ≢ num
IsToOthers num c = Unit

abbrev pub with_net : HostState → NetState → HostState
with_net h net = record h { net = net }

-- `calls_send` and `calls_recv` are the calls of a transfer of a file; the others are turns of the
-- threads: of a service point, that handle a route, that send packets, and of the link layer.
pub data Step (num : ℕ) (h : HostState) : HostState → Type 0 where
  chosen :
      (f : Found) (c : Choice) (value : ℕ) (bytes : List ℕ) (out : List Output) {h' : HostState}
      → IsToOthers num c
      → choose f num h c ≡ shown value bytes h' out
      → Step num h h'
  calls_send :
      (sp size value : ℕ) (buf bytes : List ℕ) (out : List Output) {h' : HostState}
      → send_from h sp size buf ≡ shown value bytes h' out
      → Step num h h'
  calls_recv :
      (sp size value : ℕ) (bytes : List ℕ) (out : List Output) {h' : HostState}
      → at_point h (receive_at h sp size) (get_elem? h.points sp) ≡ shown value bytes h' out
      → Step num h h'
  arrives :
      (sp random : ℕ) (p p' : ServicePoint) (recv : Received) (raw raw_fin : Segment)
      (out : List Output)
      → get_elem? h.points sp ≡ some (some p)
      → recv_thread p sp recv random raw raw_fin ≡ done tt p' out
      → Step num h (with_points h (set h.points sp (some p')))
  cuts :
      (sp : ℕ) (s s' : Sender) (raw : Segment) (out : List Output)
      → get_elem? h.points sp ≡ some (some s.point)
      → send_thread s raw ≡ some (out, s')
      → Step num h (with_points h (set h.points sp (some s'.point)))
  learns :
      (r : Route) (routing : Routing)
      → IsTold h.net.routing r
      → handle_route h.net.routing r ≡ some routing
      → Step num h (with_net h (record (h.net) { routing = routing }))
  posts :
      (dest size protocol : ℕ) (bytes : List ℕ) (net : NetState)
      → net_send h.net dest bytes size protocol ≡ queued net
      → Step num h (with_net h net)
  forwards :
      (d : Datagram) (net : NetState)
      → net_resend h.net d ≡ queued net
      → Step num h (with_net h net)
  takes :
      (item : WaitListItem) (waiting : WaitList)
      → wait_list_remove h.net.waiting ≡ some (item, waiting)
      → Step num h (with_net h (record (h.net) { waiting = waiting }))
  fills :
      (dest size : ℕ) (bytes : List ℕ) (link : LinkState)
      → link_send h.link dest bytes size ≡ ok link
      → Step num h (with_link h link)
  empties :
      (sendto : ℕ → List ℕ → ℤ) (random1 random2 : ℕ) (messages : List (List ℕ)) (host : Host)
      (link : LinkState)
      → link_internalsend sendto random1 random2 h.link ≡ some (messages, host, link)
      → Step num h (with_link h link)

pub data Reach (num : ℕ) (h : HostState) : HostState → Type 0 where
  here : Reach num h h
  next : {t u : HostState} → Reach num h t → Step num t u → Reach num h u
