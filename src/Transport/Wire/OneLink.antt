-- ===== src/Transport/Wire/OneLink.antt =====
-- A segment from a sender's thread to the service point of the receiver, through both network
-- layers and over one link.
use network_layer_full.Base.{
  ℕ, ◌+◌, ◌-◌, ◌^◌, ◌≤◌, ◌<◌, ◌≡◌, ◌≢◌, refl, true, false, some, List, [], ◌∷◌, ◌++◌, arith, ◌==◌,
  ne→not_==, get_elem?, length, length-append, length-take, length-le_bytes, take, take-append_of,
  le_bytes, u16, sub_size,
}
use network_layer_full.Base.Int.{pos}
use network_layer_full.Checksum.{checksum}
use network_layer_full.Checksum.Laws.{checksum-lt}
use network_layer_full.Topology.{Links, getmtu}
use network_layer_full.Net.Recv.Accept.{Delivery}
use network_layer_full.Net.Recv.OneLink.{IsPacket, delivery_of, internalsend-receive_all}
use network_layer_full.Net.Recv.Own.{frames}
use network_layer_full.Net.Recv.Turn.{turned, receive_all}
use network_layer_full.Net.Routes.{hostreachable}
use network_layer_full.Net.Send.{WaitListItem}
use network_layer_full.Net.Sending.{
  NetState, queued, ttl, enqueue, net_send, LinkCall, internalsend,
}
use network_layer_full.Net.WaitList.{WaitList, wait_list_insert, wait_list_remove}
use network_layer_full.Net.WaitList.Queue.{Represents, insert-Represents, remove-Represents}
use network_layer_full.Transport.Point.{ServicePoint, Points}
use network_layer_full.Transport.Segment.{Segment, segment_head, buildsendsegment}
use network_layer_full.Transport.Segment.RoundTrip.{IsSegment, buildrecvsegment-buildsendsegment}
use network_layer_full.Transport.Wire.{post, at_segment, posted, internalrecv}

pub length-buildsendsegment :
    (seg : Segment) (size : ℕ)
    → IsSegment seg size
    → length (buildsendsegment seg size).1 ≡ size + 17
unfolding buildsendsegment segment_head
length-buildsendsegment seg size v =
    simp (length-append, length-le_bytes) (omega (arith, length-take size seg.payload, v.sized))

pub internalrecv-buildsendsegment :
    (points : Points) (seg : Segment) (size protocol src : ℕ) (p : ServicePoint)
    → IsSegment seg size
    → size ≤ 2 ^ 14
    → get_elem? points seg.dest ≡ some (some p)
    → internalrecv points (record {
      protocol = protocol;
      src = src;
      size = size + 17;
      payload = (buildsendsegment seg size).1;
    })
      ≡ posted seg.dest
          (record { segment = (buildsendsegment seg size).0; size = size + 17; src = src })
unfolding internalrecv at_segment post buildsendsegment
internalrecv-buildsendsegment points seg size protocol src p v small there =
    let head = segment_head seg size in
    let sum = checksum head in
    let bound = checksum-lt head in
    let two = length-le_bytes 2 sum in
    let len : sub_size (size + 17) 2 ≡ length head =
      omega (arith, length-append head (le_bytes 2 sum), length-buildsendsegment seg size v) in
    let front : take (sub_size (size + 17) 2) (head ++ le_bytes 2 sum) ≡ head =
      take-append_of _ head (le_bytes 2 sum) len in
    let right : (u16 (sum + 2 ^ 16 - sum) == 0) ≡ true = ground arith in
    rw (buildrecvsegment-buildsendsegment seg size v, front, right, there)

-- What `net_send` makes of the bytes of a segment.
abbrev pub packet_of : NetState → ℕ → List ℕ → ℕ → WaitListItem
packet_of s dest bytes size = record (s.wait_item) {
  dest = dest;
  src = s.routing.num;
  payload = bytes;
  size = size;
  protocol = 1;
  first_dest_link = hostreachable s.routing dest;
  offset = 0;
  ttl = ttl;
}

pub net_send-queued :
    (s : NetState) (dest size : ℕ) (bytes : List ℕ) (w : WaitList)
    → hostreachable s.routing dest ≢ 0
    → wait_list_insert s.waiting (packet_of s dest bytes size) ≡ some w
    → net_send s dest bytes size 1
      ≡ queued (record s { wait_item = packet_of s dest bytes size; waiting = w })
unfolding net_send enqueue
net_send-queued s dest size bytes w route put =
    let known : (hostreachable s.routing dest == 0) ≡ false =
      ne→not_== (hostreachable s.routing dest) 0 route in
    rw (known, put)

-- The bytes that `seg_send_thread` builds for a segment of at most 2 ^ 14 bytes are handed to
-- `net_send` at a host with no packet waiting and a link, of an MTU from 28 on, to the host that the
-- segment is for, and that link as the route to it. Then they are queued, the turn of the sending thread ends, and the
-- receiver, which gets its datagrams in order while no packet is pending, gives one packet to its
-- transport layer; `internalrecv` there finds it intact and posts, to the service point of the
-- segment's destination, exactly this segment, with its size and its host.
pub net_send-posted :
    (s r : NetState) (links : Links) (points : Points) (p : ServicePoint) (seg : Segment)
    (dest size count_id mtu fuel : ℕ)
    → IsSegment seg size
    → size ≤ 2 ^ 14
    → dest < 2 ^ 16
    → s.routing.num < 2 ^ 16
    → hostreachable s.routing dest ≡ dest
    → dest ≢ 0
    → Represents s.waiting []
    → getmtu links s.routing.num dest ≡ some (pos mtu)
    → 28 ≤ mtu
    → mtu < 2 ^ 16
    → count_id < 2 ^ 16
    → size + 17 < fuel
    → r.routing.num ≡ dest
    → get_elem? points seg.dest ≡ some (some p)
    → (s' : NetState) × (item : WaitListItem) × (w : WaitList) × (calls : List LinkCall)
      × (d : Delivery) × (net_send s dest (buildsendsegment seg size).1 (size + 17) 1 ≡ queued s')
      × (wait_list_remove s'.waiting ≡ some (item, w))
      × Represents w []
      × (internalsend fuel links s.routing.num count_id item ≡ some (calls, u16 (count_id + 1)))
      × (receive_all (frames calls) r [] ≡ turned (d ∷ []) [] r)
      × (internalrecv points d
          ≡ posted seg.dest (record {
            segment = (buildsendsegment seg size).0;
            size = size + 17;
            src = s.routing.num;
          }))
net_send-posted s r links points p seg dest size count_id mtu fuel v small dest_in num_in direct
      real waiting link low high id_in enough here there =
    let bytes = (buildsendsegment seg size).1 in
    let item = packet_of s dest bytes (size + 17) in
    let put = insert-Represents s.waiting [] item waiting (omega arith) in
    let out = remove-Represents put.0 item [] put.2 in
    let packet : IsPacket item = record {
      upper = refl;
      at_start = refl;
      sized = length-buildsendsegment seg size v;
      small = omega arith;
      ttl_in = omega arith;
      dest_in = dest_in;
      src_in = num_in;
    } in
    let sent =
      internalsend-receive_all r links s.routing.num count_id mtu fuel item (rw direct link) low
        high packet id_in (omega arith) here in
    (
      record s { wait_item = item; waiting = put.0 },
      item,
      out.0,
      sent.0,
      delivery_of item,
      net_send-queued s dest (size + 17) bytes put.0 (rw direct real) put.1,
      out.1,
      out.2,
      sent.1,
      sent.2,
      internalrecv-buildsendsegment points seg size 1 s.routing.num p v small there,
    )
