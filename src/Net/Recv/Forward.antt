-- ===== src/Net/Recv/Forward.antt =====
-- A datagram for another host: from the bytes that arrive to the bytes that are sent on.
use network_layer_full.Base.{
  ℕ, ◌+◌, ◌%◌, ◌^◌, ◌≤◌, ◌<◌, ◌≡◌, ◌≢◌, refl, false, some, List, [], ◌∷◌, ◌++◌, arith, ◌==◌,
  ne→not_==, le→leb, length, take, take-all, u16,
}
use network_layer_full.Base.Int.{pos}
use network_layer_full.Topology.{Links, getmtu}
use network_layer_full.Net.Datagram.{Datagram, net_header_size, datagram_head, buildsenddatagram}
use network_layer_full.Net.Datagram.RoundTrip.{IsDatagram}
use network_layer_full.Net.Frag.{fragpack2}
use network_layer_full.Net.Packs.{Pack}
use network_layer_full.Net.Recv.Own.{internalrecv-sent}
use network_layer_full.Net.Recv.Turn.{turned, passed_on, internalrecv}
use network_layer_full.Net.Routes.{hostreachable}
use network_layer_full.Net.Send.{WaitListItem}
use network_layer_full.Net.Sending.{
  NetState, enqueue, net_resend, resent, datagrams, to_link, internalsend,
}
use network_layer_full.Net.WaitList.{WaitList, wait_list_remove}
use network_layer_full.Net.WaitList.Queue.{Represents, insert-Represents, remove-Represents}

-- A datagram that arrives intact for another host that has a route, while fewer than 100 packets
-- wait, is put behind them, whatever its `ttl`: with protocol 2, the `ttl` one less as a byte (so
-- 255 after 0), and its other fields and its bytes as they came.
pub internalrecv-forwards :
    (s : NetState) (packs : List Pack) (d : Datagram) (q : List WaitListItem)
    → IsDatagram d
    → d.dest ≢ s.routing.num
    → hostreachable s.routing d.dest ≢ 0
    → Represents s.waiting q
    → length q < 100
    → (w : WaitList) × (internalrecv s packs (buildsenddatagram d).1
        ≡ turned [] packs (record s { waiting = w }))
      × Represents w (
          q
          ++ (record {
            dest = d.dest;
            src = d.src;
            payload = d.payload;
            offset = d.frag;
            ttl = (d.ttl + 255) % 2 ^ 8;
            size = d.size;
            protocol = 2;
            id = d.id;
            first_dest_link = hostreachable s.routing d.dest;
          }
              ∷ []))
unfolding buildsenddatagram net_resend enqueue
internalrecv-forwards s packs d q v far route w room =
    let other : (d.dest == s.routing.num) ≡ false = ne→not_== d.dest s.routing.num far in
    let known : (hostreachable s.routing d.dest == 0) ≡ false =
      ne→not_== (hostreachable s.routing d.dest) 0 route in
    let item = resent (passed_on d) (hostreachable s.routing d.dest) in
    let out = insert-Represents s.waiting q item w room in
    (out.0, rw (internalrecv-sent s packs d v, other, known, out.1), out.2)

-- A datagram for another host without a route is dropped.
pub internalrecv-no_route :
    (s : NetState) (packs : List Pack) (d : Datagram)
    → IsDatagram d
    → d.dest ≢ s.routing.num
    → hostreachable s.routing d.dest ≡ 0
    → internalrecv s packs (buildsenddatagram d).1 ≡ turned [] packs s
unfolding buildsenddatagram net_resend
internalrecv-no_route s packs d v far none_known =
    let other : (d.dest == s.routing.num) ≡ false = ne→not_== d.dest s.routing.num far in
    rw (internalrecv-sent s packs d v, other, none_known)

-- The turn of the sending thread for a forwarded datagram that fits the next link.
resent-internalsend :
    (links : Links) (num count_id mtu fuel node : ℕ) (d : Datagram)
    → IsDatagram d
    → d.protocol ≡ 2
    → getmtu links num node ≡ some (pos mtu)
    → mtu < 2 ^ 16
    → d.size + net_header_size ≤ mtu
    → internalsend fuel links num count_id (resent d node)
      ≡ some (
        record { dest = node; bytes = (buildsenddatagram d).1; size = d.size + net_header_size }
            ∷ [],
        count_id,
      )
unfolding internalsend datagrams to_link fragpack2 buildsenddatagram datagram_head
resent-internalsend links num count_id mtu fuel node d v two link small fits =
    let same : u16 mtu ≡ mtu = omega arith in
    let leb_fits = le→leb (d.size + net_header_size) mtu fits in
    let whole : take d.size d.payload ≡ d.payload =
      take-all d.size d.payload (omega (arith, v.sized)) in
    rw (link, same, two, leb_fits, whole, whole)

-- A datagram that arrives intact for another host, at a host with no packet waiting and a route to
-- it over a link of an MTU that the datagram with its 20 bytes of header does not exceed, is sent
-- on by the next turn of the sending thread: one call of `link_send`, to the next host, with the
-- bytes of the same datagram but for protocol 2 and the `ttl`, one less as a byte. The ring is
-- then empty again, and the counter of packets stays.
pub relay :
    (s : NetState) (packs : List Pack) (links : Links) (count_id mtu fuel : ℕ) (d : Datagram)
    → IsDatagram d
    → d.dest ≢ s.routing.num
    → hostreachable s.routing d.dest ≢ 0
    → Represents s.waiting []
    → getmtu links s.routing.num (hostreachable s.routing d.dest) ≡ some (pos mtu)
    → mtu < 2 ^ 16
    → d.size + 20 ≤ mtu
    → (w : WaitList) × (item : WaitListItem) × (w' : WaitList) × (internalrecv s packs
          (buildsenddatagram d).1
        ≡ turned [] packs (record s { waiting = w }))
      × (wait_list_remove w ≡ some (item, w'))
      × Represents w' []
      × (internalsend fuel links s.routing.num count_id item
          ≡ some (
            record {
              dest = hostreachable s.routing d.dest;
              bytes =
                  (buildsenddatagram (record d { protocol = 2; ttl = (d.ttl + 255) % 2 ^ 8 })).1;
              size = d.size + 20;
            }
                ∷ [],
            count_id,
          ))
relay s packs links count_id mtu fuel d v far route w link small fits =
    let node = hostreachable s.routing d.dest in
    let item = resent (passed_on d) node in
    let put = internalrecv-forwards s packs d [] v far route w (omega arith) in
    let out = remove-Represents put.0 item [] put.2 in
    let v' : IsDatagram (passed_on d) = record {
      size_in = v.size_in;
      id_in = v.id_in;
      frag_in = v.frag_in;
      protocol_in = omega arith;
      ttl_in = omega arith;
      dest_in = v.dest_in;
      src_in = v.src_in;
      sized = v.sized;
    } in
    (
      put.0,
      item,
      out.0,
      put.1,
      out.1,
      out.2,
      resent-internalsend links s.routing.num count_id mtu fuel node (passed_on d) v' refl link
          small fits,
    )
