-- ===== src/Startup.antt =====
-- The start of a host: `main` of project.c with `link_init`, `net_init` and `transport_init`.
pub mod Agreement
use network_layer_full.Base.{
  ℕ, ◌-◌, ◌&&◌, Option, none, some, List, if◌then◌else◌, leb, ◌>>=◌, replicate, u16,
}
use network_layer_full.Base.Int.{ℤ, pos}
use network_layer_full.Config.{Topo, file_lines, readconfig}
use network_layer_full.Garbler
use network_layer_full.Garbler.{set_garbler}
use network_layer_full.Link.Send.{LinkState}
use network_layer_full.Net.Routes.{Routing, neighbors_init, fillallroutes}
use network_layer_full.Net.Send.{WaitListItem}
use network_layer_full.Net.Sending.{NetState}
use network_layer_full.Net.WaitList.{Semaphores, initial}
use network_layer_full.Topology.{max_hosts, Host, Links, initlinks, findhost, get_max_mtu}
use network_layer_full.Transport.Point.{Points, max_service_points}

-- A row of the matrix, `links[num-1]`; `none`: it lies outside.
unfoldable pub way_of : Links → ℕ → Option (ℕ → ℤ)
way_of links num = if leb 1 num && leb num max_hosts then some (links (num - 1)) else none

-- The globals of the network layer hold zeroes before.
unfoldable pub net_init : Routing → WaitListItem → Semaphores → ℕ → (ℕ → ℤ) → NetState
unfolding neighbors_init fillallroutes
net_init zeroes no_item sems num way = record {
  routing = fillallroutes (neighbors_init way (record zeroes { num = num }));
  waiting = initial no_item sems;
  wait_item = no_item;
}

unfoldable pub transport_init : Points
transport_init = replicate max_service_points none

-- `me` is what `findhost` gives; the socket is opened, and no frame waits.
unfoldable pub link_init : Host → List Host → Links → LinkState
unfolding set_garbler
link_init me hosts links = record {
  me = me;
  hosts = hosts;
  links = links;
  garbler = (set_garbler Garbler.initial (pos 0) (pos 0) (pos 0)).0;
  slot = none;
}

-- What the layers have at the start; `max` is the size of the buffer for frames.
pub record Started : Type 0 where
  pub links : Links
  pub hosts : List Host
  pub me : Host
  pub max : ℤ
  pub net : NetState
  pub points : Points

-- From the reading of the file on.
unfoldable pub start_from : Routing → WaitListItem → Semaphores → ℕ → Topo → Option Started
unfolding way_of net_init transport_init
start_from zeroes no_item sems num (links, hosts) = do
  me ← findhost hosts num
  way ← way_of links num
  some (record {
    links = links;
    hosts = hosts;
    me = me;
    max = get_max_mtu links;
    net = net_init zeroes no_item sems num way;
    points = transport_init;
  })

-- The globals that hold zeroes before, the semaphores' values before, the bytes on the stack when
-- each line is read, the file, and `num`, the first argument of the program. `none` is an access
-- outside of an array.
unfoldable pub main :
    (List ℕ → Option ℕ)
    → Host
    → Routing
    → WaitListItem
    → Semaphores
    → (ℕ → List ℕ)
    → Option (List (List ℕ))
    → ℕ
    → Option Started
unfolding readconfig start_from initlinks file_lines
main inet_pton no_host zeroes no_item sems stack file num = do
  topo ← readconfig inet_pton (file_lines stack file) initlinks (replicate max_hosts no_host)
  start_from zeroes no_item sems num topo
