-- ===== src/Net/Carry/TwoHops.antt =====
-- A packet to a host that is reached over another: the network and link layers of three hosts.
use network_layer_full.Base.{
  ℕ, ◌+◌, ◌%◌, ◌^◌, ◌≤◌, ◌<◌, ◌≡◌, ◌≢◌, refl, sym, ap, subst, ◌∙◌, none, some, true, List, [], ◌∷◌,
  ◌++◌, arith, eq→==, le→leb, take, take-all, leb, ◌==◌, All-take, IsByte, AllBytes, u16,
}
use network_layer_full.Base.Int.{ℤ, pos}
use network_layer_full.Garbler.{initial}
use network_layer_full.Topology.{Host, Links, getmtu, findhost}
use network_layer_full.Link.Send.{LinkState}
use network_layer_full.Net.Carry.{carry, arrive}
use network_layer_full.Net.Carry.Fits.{Fits, messages, carry-Fits, arrive-Fits}
use network_layer_full.Net.Datagram.{Datagram, net_header_size, buildsenddatagram}
use network_layer_full.Net.Datagram.RoundTrip.{IsDatagram}
use network_layer_full.Net.Frag.{fragpack}
use network_layer_full.Net.Recv.Accept.{Delivery}
use network_layer_full.Net.Recv.Forward.{relay}
use network_layer_full.Net.Recv.OneLink.{IsPacket, delivery_of, uncut-IsDatagram}
use network_layer_full.Net.Recv.Turn.{turned, internalrecv, receive_all}
use network_layer_full.Net.Recv.Whole.{contents, internalrecv-whole}
use network_layer_full.Net.Routes.{hostreachable}
use network_layer_full.Net.Send.{WaitListItem}
use network_layer_full.Net.Sending.{NetState, uncut, datagrams, LinkCall, to_link, internalsend}
use network_layer_full.Net.WaitList.{WaitList, wait_list_remove}
use network_layer_full.Net.WaitList.Queue.{Represents}

-- A link from a host to `node` that is ready for a datagram with `size` bytes of payload, and the
-- buffer of `max` bytes at its other end: no frame waits, the garbler is off, the link is up, its
-- MTU is more than the datagram, and the buffer is longer than the MTU by 11 bytes or more.
pub record IsHop (s : LinkState) (host : Host) (node size mtu max : ℕ) : Type 0 where
  pub free : s.slot ≡ none
  pub off : s.garbler ≡ initial
  pub up : getmtu s.links s.me.num node ≡ some (pos mtu)
  pub known : findhost s.hosts node ≡ some host
  pub node_in : node < 2 ^ 16
  pub fits : size + 20 < mtu
  pub high : mtu < 2 ^ 16
  pub room : mtu + 11 ≤ max

-- One datagram over one such link.
hop :
    (sendto : ℕ → List ℕ → ℤ) (random1 random2 : ℕ → ℕ) (s : LinkState) (host : Host)
    (node size mtu max : ℕ) (d : Datagram)
    → IsHop s host node size mtu max
    → IsDatagram d
    → AllBytes d.payload
    → d.size ≡ size
    → (wire : List (List ℕ)) × (carry sendto random1 random2 0 (to_link node (d ∷ [])) s
        ≡ some (wire, s))
      × (arrive max wire ≡ some ((buildsenddatagram d).1 ∷ []))
unfolding to_link
hop sendto random1 random2 s host node size mtu max d h v bytes e =
    let fits : Fits mtu d = (v, bytes, omega (arith, h.fits)) in
    (
      messages node (d ∷ []),
      carry-Fits sendto random1 random2 max mtu node host s h.free h.off h.up h.known h.node_in
          h.high h.room 0 (d ∷ []) (fits, tt),
      arrive-Fits sendto random1 random2 max mtu node host s h.free h.off h.up h.known h.node_in
          h.high h.room (d ∷ []) (fits, tt),
    )

uncut-internalsend :
    (links : Links) (num count_id mtu fuel : ℕ) (item : WaitListItem)
    → IsPacket item
    → getmtu links num item.first_dest_link ≡ some (pos mtu)
    → item.size + 20 < mtu
    → mtu < 2 ^ 16
    → internalsend fuel links num count_id item
      ≡ some (to_link item.first_dest_link (uncut item count_id ∷ []), u16 (count_id + 1))
unfolding internalsend datagrams fragpack
uncut-internalsend links num count_id mtu fuel item v link fits high =
    let upper : (item.protocol == 1) ≡ true = eq→== item.protocol 1 v.upper in
    let small : leb (item.size + net_header_size) mtu ≡ true =
      le→leb (item.size + net_header_size) mtu (omega arith) in
    let same : u16 mtu ≡ mtu = omega arith in rw (link, same, upper, v.at_start, small)

-- One frame that arrives.
receive_all-one :
    (s s' : NetState) (buf : List ℕ) (now : List Delivery)
    → internalrecv s [] buf ≡ turned now [] s'
    → receive_all (buf ∷ []) s [] ≡ turned (now ++ []) [] s'
unfolding receive_all
receive_all-one s s' buf now e = rw e

-- The last hop: the datagram as the host in between sends it on.
last_hop :
    (s : NetState) (item : WaitListItem) (id : ℕ) (d : Datagram)
    → IsPacket item
    → IsDatagram d
    → s.routing.num ≡ item.dest
    → d ≡ record (uncut item id) { protocol = 2; ttl = (item.ttl + 255) % 2 ^ 8 }
    → receive_all ((buildsenddatagram d).1 ∷ []) s []
      ≡ turned (record (delivery_of item) { protocol = 2 } ∷ []) [] s
last_hop s item id d v vd here e =
    let whole : take item.size item.payload ≡ item.payload =
      take-all item.size item.payload (omega (arith, v.sized)) in
    let up : contents d ≡ record (delivery_of item) { protocol = 2 } =
      ap contents e
      ∙ ap (λ (bytes : List ℕ). record (delivery_of item) { protocol = 2; payload = bytes })
          whole in
    let turn =
      internalrecv-whole s d vd (ap (λ (t : Datagram). t.dest) e ∙ sym here)
        (ap (λ (t : Datagram). t.protocol) e) (ap (λ (t : Datagram). t.frag) e ∙ v.at_start)
        (subst (λ (n : ℕ). n ≤ 2 ^ 15) (sym (ap (λ (t : Datagram). t.size) e)) v.small) in
    subst (λ (t : Delivery). receive_all ((buildsenddatagram d).1 ∷ []) s [] ≡ turned (t ∷ []) [] s)
      up (receive_all-one s s (buildsenddatagram d).1 (contents d ∷ []) turn)

-- A packet that fits both links, from a host to another that is reached over a third, while both
-- links are ready (see `IsHop`) and the third has no packet waiting: the sender's turn puts its
-- datagram on the first wire, and the host in between receives it, hands nothing up and queues it;
-- its next turn takes it from the ring, which is then empty, and puts it on the second wire; and
-- the host that it is for hands up one packet, with the sender's address, size and bytes, under
-- protocol 2. Both link layers and the last host are then as before.
pub carry-relay-receive_all :
    (sendto : ℕ → List ℕ → ℤ) (random1 random2 : ℕ → ℕ) (a b : LinkState) (sb sc : NetState)
    (host_b host_c : Host) (count_a count_b mtu_a mtu_b max_b max_c fuel : ℕ) (item : WaitListItem)
    → IsPacket item
    → AllBytes item.payload
    → IsHop a host_b item.first_dest_link item.size mtu_a max_b
    → IsHop b host_c (hostreachable sb.routing item.dest) item.size mtu_b max_c
    → b.me.num ≡ sb.routing.num
    → item.dest ≢ sb.routing.num
    → hostreachable sb.routing item.dest ≢ 0
    → Represents sb.waiting []
    → sc.routing.num ≡ item.dest
    → count_a < 2 ^ 16
    → (calls : List LinkCall) × (wire : List (List ℕ)) × (payloads : List (List ℕ)) × (w : WaitList)
      × (item' : WaitListItem) × (w' : WaitList) × (calls' : List LinkCall) × (wire' : List
          (List ℕ))
      × (payloads' : List (List ℕ)) × (internalsend fuel a.links a.me.num count_a item
          ≡ some (calls, u16 (count_a + 1)))
      × (carry sendto random1 random2 0 calls a ≡ some (wire, a))
      × (arrive max_b wire ≡ some payloads)
      × (receive_all payloads sb [] ≡ turned [] [] (record sb { waiting = w }))
      × (wait_list_remove w ≡ some (item', w'))
      × Represents w' []
      × (internalsend fuel b.links b.me.num count_b item' ≡ some (calls', count_b))
      × (carry sendto random1 random2 0 calls' b ≡ some (wire', b))
      × (arrive max_c wire' ≡ some payloads')
      × (receive_all payloads' sc []
          ≡ turned (record (delivery_of item) { protocol = 2 } ∷ []) [] sc)
unfolding to_link
carry-relay-receive_all sendto random1 random2 a b sb sc host_b host_c count_a count_b mtu_a mtu_b
      max_b max_c fuel item v bytes first second me far route empty here id_in =
    let d = uncut item count_a in
    let vd = uncut-IsDatagram item count_a v id_in in
    let part = All-take IsByte item.size item.payload bytes in
    let node = hostreachable sb.routing item.dest in
    let one =
      hop sendto random1 random2 a host_b item.first_dest_link item.size mtu_a max_b d first vd part
        refl in
    let up : getmtu b.links sb.routing.num node ≡ some (pos mtu_b) = rw me at second.up in
    let passed =
      relay sb [] b.links count_b mtu_b fuel d vd far route empty up second.high
        (omega (arith, second.fits)) in
    let d' : Datagram = record d { protocol = 2; ttl = (item.ttl + 255) % 2 ^ 8 } in
    let vd' : IsDatagram d' = record {
      size_in = vd.size_in;
      id_in = vd.id_in;
      frag_in = vd.frag_in;
      protocol_in = omega arith;
      ttl_in = omega arith;
      dest_in = vd.dest_in;
      src_in = vd.src_in;
      sized = vd.sized;
    } in
    let two =
      hop sendto random1 random2 b host_c node item.size mtu_b max_c d' second vd' part refl in
    (
      to_link item.first_dest_link (d ∷ []),
      one.0,
      (buildsenddatagram d).1 ∷ [],
      passed.0,
      passed.1,
      passed.2,
      to_link node (d' ∷ []),
      two.0,
      (buildsenddatagram d').1 ∷ [],
      uncut-internalsend a.links a.me.num count_a mtu_a fuel item v first.up first.fits first.high,
      one.1,
      one.2,
      receive_all-one sb (record sb { waiting = passed.0 }) (buildsenddatagram d).1 [] passed.3,
      passed.4,
      passed.5,
      rw me passed.6,
      two.1,
      two.2,
      last_hop sc item count_a d' v vd' here refl,
    )
