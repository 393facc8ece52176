-- ===== src/Net/Recv/OneLink.antt =====
-- A packet from the sender's queue to the layer above the receiver's, over one link.
use network_layer_full.Base.{
  ℕ, ◌+◌, ◌^◌, ◌≤◌, ◌<◌, ◌≡◌, refl, sym, ap, ◌∙◌, true, false, some, List, [], ◌∷◌, arith, ◌==◌,
  le→leb, length, length-take, length-drop, take, take-all, drop, u16,
}
use native.Mathlib.Decide.{dec_le}
use network_layer_full.Base.Int.{pos}
use network_layer_full.Topology.{Links, getmtu}
use network_layer_full.Net.Datagram.{Datagram, net_header_size}
use network_layer_full.Net.Datagram.RoundTrip.{IsDatagram}
use network_layer_full.Net.Frag.{Fragment, frag_size, fragpack}
use network_layer_full.Net.Frag.Laws.{IsCut, fragpack_lem, frag_size_bounds}
use network_layer_full.Net.Send.{WaitListItem, from_fragment, from_fragments}
use network_layer_full.Net.Packs.{getid}
use network_layer_full.Net.Packs.InOrder.{stamped, accept_cut}
use network_layer_full.Net.Recv.Accept.{Delivery, accept_all}
use network_layer_full.Net.Recv.Own.{sum_of, AllMine, frames, receive_all-to_link}
use network_layer_full.Net.Recv.Whole.{accept-whole}
use network_layer_full.Net.Recv.Turn.{turned, receive_all}
use network_layer_full.Net.Sending.{NetState, uncut, datagrams, LinkCall, to_link, internalsend}

-- A packet as the transport layer hands it over.
pub record IsPacket (item : WaitListItem) : Type 0 where
  pub upper : item.protocol ≡ 1
  pub at_start : item.offset ≡ 0
  pub sized : length item.payload ≡ item.size
  pub small : item.size ≤ 2 ^ 15
  pub ttl_in : item.ttl < 2 ^ 8
  pub dest_in : item.dest < 2 ^ 16
  pub src_in : item.src < 2 ^ 16

-- What goes up.
abbrev pub delivery_of : WaitListItem → Delivery
delivery_of item = record {
  protocol = item.protocol;
  src = item.src;
  size = item.size;
  payload = item.payload;
}

pub from_fragments-AllMine :
    (item : WaitListItem) (id fs position : ℕ) (rest : List ℕ) (frags : List Fragment)
    → IsPacket item
    → id < 2 ^ 16
    → position + length rest ≤ 2 ^ 15
    → IsCut fs false position rest frags
    → AllMine item.dest (from_fragments item id frags)
unfolding from_fragments
from_fragments-AllMine item id fs position rest [] v hi top cut = absurd cut
from_fragments-AllMine item id fs position rest (g ∷ []) v hi top cut =
    let d : IsDatagram (from_fragment item id g) = record {
      size_in = omega arith;
      id_in = hi;
      frag_in = omega arith;
      protocol_in = omega (arith, v.upper);
      ttl_in = v.ttl_in;
      dest_in = v.dest_in;
      src_in = v.src_in;
      sized = rw cut.0 (sym cut.1);
    } in
    ((d, v.upper, refl), tt)
from_fragments-AllMine item id fs position rest (g ∷ h ∷ gs) v hi top cut =
    let d : IsDatagram (from_fragment item id g) = record {
      size_in = omega arith;
      id_in = hi;
      frag_in = omega arith;
      protocol_in = omega (arith, v.upper);
      ttl_in = v.ttl_in;
      dest_in = v.dest_in;
      src_in = v.src_in;
      sized = rw (cut.0, cut.1) (omega (arith, length-take fs rest));
    } in
    (
      (d, v.upper, refl),
      from_fragments-AllMine item id fs (position + fs) (drop fs rest) (h ∷ gs) v hi
          (omega (arith, length-drop fs rest)) cut.4,
    )

pub uncut-IsDatagram :
    (item : WaitListItem) (id : ℕ) → IsPacket item → id < 2 ^ 16 → IsDatagram (uncut item id)
uncut-IsDatagram item id v id_in =
    let whole : take item.size item.payload ≡ item.payload =
      take-all item.size item.payload (omega (arith, v.sized)) in
    record {
      size_in = omega (arith, v.small);
      id_in = id_in;
      frag_in = omega (arith, v.at_start);
      protocol_in = omega (arith, v.upper);
      ttl_in = v.ttl_in;
      dest_in = v.dest_in;
      src_in = v.src_in;
      sized = rw whole v.sized;
    }

-- A packet in one datagram, while nothing is pending.
accept-uncut :
    (sum : Datagram → ℕ) (item : WaitListItem) (id : ℕ)
    → IsPacket item
    → accept_all [] (stamped sum (uncut item id ∷ [])) ≡ some (delivery_of item ∷ [], [])
unfolding accept_all
accept-uncut sum item id v =
    let whole : take item.size item.payload ≡ item.payload =
      take-all item.size item.payload (omega (arith, v.sized)) in
    let d : Datagram = record (uncut item id) { checksum = sum (uncut item id) } in
    let out = accept-whole d v.at_start (omega (arith, ap length whole, v.sized)) v.small in
    rw out
      (ap (λ (bytes : List ℕ). some (record (delivery_of item) { payload = bytes } ∷ [], [])) whole)

module _ (s : NetState) (links : Links) (num count_id mtu fuel : ℕ) (item : WaitListItem)
    (link : getmtu links num item.first_dest_link ≡ some (pos mtu)) (low : 28 ≤ mtu)
    (high : mtu < 2 ^ 16) (v : IsPacket item) (id_in : count_id < 2 ^ 16)
    (enough : item.size < fuel) (here : s.routing.num ≡ item.dest) where
  sent :
      (ds : List Datagram)
      → datagrams fuel count_id item mtu ≡ some (ds, u16 (count_id + 1))
      → AllMine item.dest ds
      → accept_all [] (stamped sum_of ds) ≡ some (delivery_of item ∷ [], [])
      → (calls : List LinkCall) × (internalsend fuel links num count_id item
          ≡ some (calls, u16 (count_id + 1)))
        × (receive_all (frames calls) s [] ≡ turned (delivery_of item ∷ []) [] s)
  unfolding internalsend
  sent ds e mine up =
      let fits : u16 mtu ≡ mtu = omega arith in
      (
        to_link item.first_dest_link ds,
        rw (link, fits, e),
        receive_all-to_link s [] [] item.first_dest_link ds (delivery_of item ∷ []) (rw here mine)
            up,
      )

  -- A packet of at most 2 ^ 15 bytes from the queue of a sender, over one link of an MTU from 28 on
  -- to the host that it is for: the sender's turn ends, and the receiver, which gets the sender's
  -- datagrams in order while it has no packet pending, hands up exactly this packet, whether it
  -- was cut or not, and has then nothing pending and its state as before.
  pub internalsend-receive_all :
      (calls : List LinkCall) × (internalsend fuel links num count_id item
        ≡ some (calls, u16 (count_id + 1)))
      × (receive_all (frames calls) s [] ≡ turned (delivery_of item ∷ []) [] s)
  unfolding datagrams
  internalsend-receive_all = elim (dec_le (item.size + net_header_size) mtu) [
    | yes fits ↦
        let up : (item.protocol == 1) ≡ true = ground (arith, v.upper) in
        let small = le→leb (item.size + net_header_size) mtu fits in
        sent (uncut item count_id ∷ []) (unfold fragpack in rw (up, small))
          ((uncut-IsDatagram item count_id v id_in, v.upper, refl), tt)
          (accept-uncut sum_of item count_id v)
    | no big ↦
        let up : (item.protocol == 1) ≡ true = ground (arith, v.upper) in
        let cut =
          fragpack_lem fuel item.payload item.size mtu v.sized (omega arith) low high v.small
            enough in
        let fs = frag_size_bounds mtu low high in
        let len : length item.payload ≤ 2 ^ 15 = omega (arith, v.sized, v.small) in
        sent (from_fragments item count_id cut.0) (rw (up, v.at_start, cut.1))
          (from_fragments-AllMine item count_id (frag_size mtu) 0 item.payload cut.0 v id_in
            (omega arith) cut.2)
          (accept_cut sum_of item count_id (frag_size mtu) [] item.payload cut.0 (omega arith)
              (omega (arith, v.sized)) len (unfold getid in refl) cut.2
            ∙ ap
                (λ (n : ℕ). some (
                  record {
                    protocol = item.protocol;
                    src = item.src;
                    size = n;
                    payload = item.payload;
                  }
                      ∷ [],
                  [],
                ))
                v.sized)
  ]
