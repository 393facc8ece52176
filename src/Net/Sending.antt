-- ===== src/Net/Sending.antt =====
-- Packets on their way out: `net_send`, `net_resend` and `internalsend` of net_layer/net_layer.c.
pub mod First
pub mod Refused
use network_layer_full.Base.{
  ℕ, ◌+◌, ◌-◌, ◌%◌, ◌^◌, ◌||◌, Option, none, some, List, [], ◌∷◌, if◌then◌else◌, ◌==◌, ◌>>=◌, take,
  u16,
}
use network_layer_full.Base.Int.{ℤ, pos, negsuc}
use network_layer_full.Topology.{Links, getmtu}
use network_layer_full.Net.Datagram.{Datagram, net_header_size, buildsenddatagram}
use network_layer_full.Net.Frag.{Fragment, fragpack, fragpack2}
use network_layer_full.Net.Routes.{Routing, hostreachable}
use network_layer_full.Net.Send.{WaitListItem, from_fragments}
use network_layer_full.Net.WaitList.{WaitList, wait_list_insert}

-- TTL
abbrev pub ttl : ℕ
ttl = 6

-- The route table, the ring of waiting packets, and the global `wait_item`.
pub record NetState : Type 0 where
  pub routing : Routing
  pub waiting : WaitList
  pub wait_item : WaitListItem

-- How a call ends: OK, ERROR, or it waits at the semaphore of the ring.
pub data Queued : Type 0 where
  queued : NetState → Queued
  no_route waits : Queued

unfoldable pub enqueue : NetState → Option WaitList → Queued
enqueue s none = waits
enqueue s (some w) = queued (record s { waiting = w })

-- The field `id` of `wait_item` keeps what it has. The fields are set and the item is copied with
-- no other call of `net_send` in between.
unfoldable pub net_send : NetState → ℕ → List ℕ → ℕ → ℕ → Queued
unfolding enqueue
net_send s dest bytes size protocol =
    let node = if protocol == 0 then dest else hostreachable s.routing dest in
    let item = record (s.wait_item) {
      dest = dest;
      src = s.routing.num;
      payload = bytes;
      size = size;
      protocol = protocol;
      first_dest_link = node;
      offset = 0;
      ttl = ttl;
    } in
    if node == 0
    then no_route
    else enqueue (record s { wait_item = item }) (wait_list_insert s.waiting item)

-- The packet that is forwarded.
abbrev pub resent : Datagram → ℕ → WaitListItem
resent d node = record {
  dest = d.dest;
  src = d.src;
  payload = d.payload;
  offset = d.frag;
  ttl = d.ttl;
  size = d.size;
  protocol = d.protocol;
  id = d.id;
  first_dest_link = node;
}

-- A datagram without a route is dropped: the state stays.
unfoldable pub net_resend : NetState → Datagram → Queued
unfolding enqueue
net_resend s d =
    let node = hostreachable s.routing d.dest in
    if node == 0 then queued s else enqueue s (wait_list_insert s.waiting (resent d node))

-- The datagram of a packet that is not cut.
abbrev pub uncut : WaitListItem → ℕ → Datagram
uncut item id = record {
  size = item.size;
  id = id;
  frag = item.offset;
  protocol = item.protocol;
  ttl = item.ttl;
  dest = item.dest;
  src = item.src;
  payload = take item.size item.payload;
  checksum = 0;
}

abbrev pub datagrams_of : WaitListItem → ℕ → ℕ × List Fragment → List Datagram
datagrams_of item id (isfragmentable, frags) =
    if isfragmentable == 0 then uncut item id ∷ [] else from_fragments item id frags

-- The datagrams of a packet and the next `count_id`, a `uint16_t`. Only packets of this host are
-- numbered; a packet of an unknown protocol is dropped.
unfoldable pub datagrams : ℕ → ℕ → WaitListItem → ℕ → Option (List Datagram × ℕ)
datagrams fuel count_id item mtu =
    if item.protocol == 1 || item.protocol == 0
    then (do
      cut ← fragpack fuel item.payload item.size mtu item.offset
      some (datagrams_of item count_id cut, u16 (count_id + 1)))
    else (if item.protocol == 2
        then (do
          cut ← fragpack2 fuel item.payload item.size mtu item.offset
          some (datagrams_of item item.id cut, count_id))
        else some ([], count_id))

-- A call of `link_send`.
pub record LinkCall : Type 0 where
  pub dest : ℕ
  pub bytes : List ℕ
  pub size : ℕ

unfoldable pub to_link : ℕ → List Datagram → List LinkCall
unfolding buildsenddatagram
to_link dest [] = []
to_link dest (d ∷ ds) =
    record { dest = dest; bytes = (buildsenddatagram d).1; size = d.size + net_header_size }
    ∷ to_link dest ds

-- An `int` as the parameter `uint16_t mtu`.
abbrev pub to_uint16 : ℤ → ℕ
to_uint16 (pos n) = u16 n
to_uint16 (negsuc n) = 2 ^ 16 - 1 - n % 2 ^ 16

-- One turn of the thread, for the packet that `wait_list_remove` gives; `none` is a read outside
-- the table of links, or no end of the cutting.
unfoldable pub internalsend : ℕ → Links → ℕ → ℕ → WaitListItem → Option (List LinkCall × ℕ)
unfolding datagrams to_link
internalsend fuel links num count_id item = do
  mtu ← getmtu links num item.first_dest_link
  (ds, count_id') ← datagrams fuel count_id item (to_uint16 mtu)
  some (to_link item.first_dest_link ds, count_id')
