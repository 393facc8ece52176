-- ===== src/Transport/Wire/Stack.antt =====
-- A segment from a sender's thread to the service point of the receiver, through the network and
-- link layers of both hosts.
use network_layer_full.Base.{
  ℕ, ◌+◌, ◌%◌, ◌^◌, ◌≤◌, ◌<◌, ◌≡◌, ◌≢◌, refl, none, some, List, [], ◌∷◌, arith, get_elem?,
  All-append, All-take, IsByte, AllBytes, le_bytes-AllBytes, u16,
}
use network_layer_full.Base.Int.{ℤ, pos}
use network_layer_full.Checksum.{checksum}
use network_layer_full.Garbler.{initial}
use network_layer_full.Topology.{Host, getmtu, findhost}
use network_layer_full.Link.Send.{LinkState}
use network_layer_full.Net.Carry.{carry, arrive}
use network_layer_full.Net.Carry.OneLink.{carry-receive_all}
use network_layer_full.Net.Recv.Accept.{Delivery}
use network_layer_full.Net.Recv.OneLink.{IsPacket, delivery_of}
use network_layer_full.Net.Recv.Turn.{turned, receive_all}
use network_layer_full.Net.Routes.{hostreachable}
use network_layer_full.Net.Send.{WaitListItem}
use network_layer_full.Net.Sending.{NetState, queued, net_send, LinkCall, internalsend}
use network_layer_full.Net.WaitList.{WaitList, wait_list_remove}
use network_layer_full.Net.WaitList.Queue.{Represents, insert-Represents, remove-Represents}
use network_layer_full.Transport.Point.{ServicePoint, Points}
use network_layer_full.Transport.Segment.{Segment, segment_head, buildsendsegment}
use network_layer_full.Transport.Segment.RoundTrip.{IsSegment}
use network_layer_full.Transport.Wire.{posted, internalrecv}
use network_layer_full.Transport.Wire.OneLink.{
  length-buildsendsegment, internalrecv-buildsendsegment, packet_of, net_send-queued,
}

buildsendsegment-AllBytes :
    (seg : Segment) (size : ℕ) → AllBytes seg.payload → AllBytes (buildsendsegment seg size).1
unfolding buildsendsegment segment_head
buildsendsegment-AllBytes seg size h =
    let two = le_bytes-AllBytes 2 in
    let four = le_bytes-AllBytes 4 in
    let all = λ (xs ys : List ℕ). All-append IsByte xs ys in
    all _ _
      (all _ _ (two seg.src) (
        all _ _ (two seg.dest) (
          all _ _ (four seg.seq_num) (
            all _ _ (four seg.ack_num) (
              all _ _ (le_bytes-AllBytes 1 seg.flags)
                (all _ _ (two seg.window_size) (All-take IsByte size seg.payload h)))))))
      (two (checksum (segment_head seg size)))

-- The two ends of a link that is up, and a segment for the other end: the sender's host has no
-- packet and no frame waiting, its garbler is off, and its route to the other host is this link;
-- the MTU suits the link layer, and the receiver's buffer is longer than it by 11 bytes or more.
pub record IsReady (s r : NetState) (link : LinkState) (host : Host) (seg : Segment)
    (dest size mtu max : ℕ) : Type 0 where
  pub segment : IsSegment seg size
  pub bytes : AllBytes seg.payload
  pub small : size ≤ 2 ^ 14
  pub dest_in : dest < 2 ^ 16
  pub num_in : s.routing.num < 2 ^ 16
  pub real : dest ≢ 0
  pub direct : hostreachable s.routing dest ≡ dest
  pub empty : Represents s.waiting []
  pub me : link.me.num ≡ s.routing.num
  pub free : link.slot ≡ none
  pub off : link.garbler ≡ initial
  pub up : getmtu link.links link.me.num dest ≡ some (pos mtu)
  pub known : findhost link.hosts dest ≡ some host
  pub low : 28 ≤ mtu
  pub high : mtu < 2 ^ 16
  pub not_four : mtu % 8 ≢ 4
  pub not_full : size + 37 ≢ mtu
  pub room : mtu + 11 ≤ max
  pub here : r.routing.num ≡ dest

-- The bytes that `seg_send_thread` builds for a segment, of at most 2 ^ 14 bytes, are handed to
-- `net_send` at a host that is ready to send over a link to the host of the destination (see
-- `IsReady`). Then they are queued and taken by the sending thread, which calls `link_send`; the
-- link layer puts messages on the wire and is as before; the link layer of the receiver makes frames
-- of them; the receiving thread, with no packet pending, hands one packet to its transport layer;
-- and `internalrecv` there finds it intact and posts exactly this segment, with its size and host, to
-- the service point that it is for.
pub net_send-wire-posted :
    (sendto : ℕ → List ℕ → ℤ) (random1 random2 : ℕ → ℕ) (s r : NetState) (link : LinkState)
    (host : Host) (points : Points) (p : ServicePoint) (seg : Segment)
    (dest size count_id mtu max fuel : ℕ)
    → IsReady s r link host seg dest size mtu max
    → count_id < 2 ^ 16
    → size + 17 < fuel
    → get_elem? points seg.dest ≡ some (some p)
    → (s' : NetState) × (item : WaitListItem) × (w : WaitList) × (calls : List LinkCall)
      × (wire : List (List ℕ)) × (payloads : List (List ℕ)) × (d : Delivery) × (net_send s dest
            (buildsendsegment seg size).1
            (size + 17)
            1
          ≡ queued s')
      × (wait_list_remove s'.waiting ≡ some (item, w))
      × Represents w []
      × (internalsend fuel link.links link.me.num count_id item ≡ some (calls, u16 (count_id + 1)))
      × (carry sendto random1 random2 0 calls link ≡ some (wire, link))
      × (arrive max wire ≡ some payloads)
      × (receive_all payloads r [] ≡ turned (d ∷ []) [] r)
      × (internalrecv points d
          ≡ posted seg.dest (record {
            segment = (buildsendsegment seg size).0;
            size = size + 17;
            src = s.routing.num;
          }))
net_send-wire-posted sendto random1 random2 s r link host points p seg dest size count_id mtu max
      fuel v id_in enough there =
    let bytes = (buildsendsegment seg size).1 in
    let item = packet_of s dest bytes (size + 17) in
    let put = insert-Represents s.waiting [] item v.empty (omega arith) in
    let out = remove-Represents put.0 item [] put.2 in
    let packet : IsPacket item = record {
      upper = refl;
      at_start = refl;
      sized = length-buildsendsegment seg size v.segment;
      small = omega (arith, v.small);
      ttl_in = omega arith;
      dest_in = v.dest_in;
      src_in = v.num_in;
    } in
    let sent =
      carry-receive_all sendto random1 random2 r link host count_id mtu max fuel item v.free v.off
        (rw v.direct v.up) (rw v.direct v.known) (rw v.direct v.dest_in) v.low v.high v.not_four
        (λ e. v.not_full (omega arith)) v.room packet (buildsendsegment-AllBytes seg size v.bytes)
        id_in (omega arith) v.here in
    (
      record s { wait_item = item; waiting = put.0 },
      item,
      out.0,
      sent.0,
      sent.1,
      _,
      delivery_of item,
      net_send-queued s dest (size + 17) bytes put.0 (rw v.direct v.real) put.1,
      out.1,
      out.2,
      sent.2,
      sent.3,
      sent.4,
      sent.5,
      internalrecv-buildsendsegment points seg size 1 s.routing.num p v.segment v.small there,
    )
