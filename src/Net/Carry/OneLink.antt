-- ===== src/Net/Carry/OneLink.antt =====
-- A packet from the queue of one host, through both link layers, to the layer above the receiver's.
use native.Mathlib.Decide.{dec_le}
use network_layer_full.Base.{
  ℕ, ◌+◌, ◌%◌, ◌^◌, ◌≤◌, ◌<◌, ◌≡◌, ◌≢◌, sym, subst, false, Option, none, some, List, [], ◌∷◌, arith,
  drop, ◌==◌, eq→==, le→leb, true, All, All-take, All-drop, IsByte, AllBytes, u16,
}
use network_layer_full.Base.Int.{ℤ, pos}
use network_layer_full.Garbler.{initial}
use network_layer_full.Topology.{Host, Links, getmtu, findhost}
use network_layer_full.Link.Send.{LinkState}
use network_layer_full.Net.Carry.{carry, arrive}
use network_layer_full.Net.Carry.Fits.{Fits, messages, carry-Fits, arrive-Fits}
use network_layer_full.Net.Datagram.{Datagram, net_header_size}
use network_layer_full.Net.Frag.{Fragment, fragpack, frag_size}
use network_layer_full.Net.Frag.Laws.{IsCut, fragpack_lem}
use network_layer_full.Net.Recv.OneLink.{
  IsPacket, delivery_of, internalsend-receive_all, from_fragments-AllMine, uncut-IsDatagram,
}
use network_layer_full.Net.Recv.Own.{AllMine, frames}
use network_layer_full.Net.Recv.Turn.{turned, receive_all}
use network_layer_full.Net.Send.{WaitListItem, from_fragments}
use network_layer_full.Net.Sending.{NetState, uncut, datagrams, LinkCall, to_link, internalsend}

from_fragments-Fits :
    (item : WaitListItem) (id fs mtu position : ℕ) (bytes : List ℕ) (frags : List Fragment)
    → fs + 20 < mtu
    → AllBytes bytes
    → IsCut fs false position bytes frags
    → AllMine item.dest (from_fragments item id frags)
    → All (Fits mtu) (from_fragments item id frags)
unfolding from_fragments
from_fragments-Fits item id fs mtu position bytes [] below h cut mine = absurd cut
from_fragments-Fits item id fs mtu position bytes (g ∷ []) below h cut mine =
    ((mine.0.0, subst AllBytes (sym cut.0) h, omega arith), tt)
from_fragments-Fits item id fs mtu position bytes (g ∷ k ∷ gs) below h cut mine = (
  (mine.0.0, subst AllBytes (sym cut.0) (All-take IsByte fs bytes h), omega arith),
  from_fragments-Fits item id fs mtu (position + fs) (drop fs bytes) (k ∷ gs) below
      (All-drop IsByte fs bytes h) cut.4 mine.1,
)

-- The datagrams of a packet.
record Parts (fuel mtu count_id : ℕ) (item : WaitListItem) : Type 0 where
  all : List Datagram
  made : datagrams fuel count_id item mtu ≡ some (all, u16 (count_id + 1))
  fit : All (Fits mtu) all

datagrams-Parts :
    (fuel mtu count_id : ℕ) (item : WaitListItem)
    → 28 ≤ mtu
    → mtu < 2 ^ 16
    → IsPacket item
    → AllBytes item.payload
    → count_id < 2 ^ 16
    → item.size < fuel
    → item.size + 20 ≢ mtu
    → mtu % 8 ≢ 4
    → Parts fuel mtu count_id item
unfolding datagrams
datagrams-Parts fuel mtu count_id item low high v bytes id_in enough not_full not_four =
    let upper : (item.protocol == 1) ≡ true = eq→== item.protocol 1 v.upper in
    elim (dec_le (item.size + net_header_size) mtu) [
      | yes fits ↦
          let small = le→leb (item.size + net_header_size) mtu fits in
          record {
            all = uncut item count_id ∷ [];
            made = unfold fragpack in rw (upper, v.at_start, small);
            fit = (
              (
                uncut-IsDatagram item count_id v id_in,
                All-take IsByte item.size item.payload bytes,
                omega arith,
              ),
              tt,
            );
          }
      | no big ↦
          let cut =
            fragpack_lem fuel item.payload item.size mtu v.sized (omega arith) low high v.small
              enough in
          let below : frag_size mtu + 20 < mtu = unfold frag_size in omega arith in
          let mine =
            from_fragments-AllMine item count_id (frag_size mtu) 0 item.payload cut.0 v id_in
              (omega (arith, v.sized, v.small)) cut.2 in
          record {
            all = from_fragments item count_id cut.0;
            made = rw (upper, v.at_start, cut.1);
            fit =
                from_fragments-Fits item count_id (frag_size mtu) mtu 0 item.payload cut.0 below
                  bytes cut.2 mine;
          }
    ]

calls-made :
    (links : Links) (num count_id mtu fuel : ℕ) (item : WaitListItem) (calls : List LinkCall)
    → getmtu links num item.first_dest_link ≡ some (pos mtu)
    → mtu < 2 ^ 16
    → (parts : Parts fuel mtu count_id item)
    → internalsend fuel links num count_id item ≡ some (calls, u16 (count_id + 1))
    → to_link item.first_dest_link parts.all ≡ calls
unfolding internalsend
calls-made links num count_id mtu fuel item calls link high parts e =
    let fits : u16 mtu ≡ mtu = omega arith in
    let e' : ◌≡◌ {A = Option (List LinkCall × ℕ)}
        (some (to_link item.first_dest_link parts.all, u16 (count_id + 1)))
        (some (calls, u16 (count_id + 1))) =
      rw (link, fits, parts.made) at e in
    cc

-- A packet of at most 2 ^ 15 bytes for the host at the other end of a link, while no frame waits
-- at the sender's link layer, the garbler is off, the link is up with an MTU from 28 on that is
-- not four more than a multiple of 8 and is not filled by the packet and its header, and the
-- receiver's buffer is at least 11 bytes longer than the MTU: the turn of the sending thread makes
-- its calls of `link_send`, which leave the link layer as it was; what the link layer of the
-- receiver makes of the messages on the wire is exactly the bytes of these calls; and the
-- receiving thread with no packet pending hands up exactly this packet, and has then nothing
-- pending and its state as before.
pub carry-receive_all :
    (sendto : ℕ → List ℕ → ℤ) (random1 random2 : ℕ → ℕ) (s : NetState) (sender : LinkState)
    (host : Host) (count_id mtu max fuel : ℕ) (item : WaitListItem)
    → sender.slot ≡ none
    → sender.garbler ≡ initial
    → getmtu sender.links sender.me.num item.first_dest_link ≡ some (pos mtu)
    → findhost sender.hosts item.first_dest_link ≡ some host
    → item.first_dest_link < 2 ^ 16
    → 28 ≤ mtu
    → mtu < 2 ^ 16
    → mtu % 8 ≢ 4
    → item.size + 20 ≢ mtu
    → mtu + 11 ≤ max
    → IsPacket item
    → AllBytes item.payload
    → count_id < 2 ^ 16
    → item.size < fuel
    → s.routing.num ≡ item.dest
    → (calls : List LinkCall) × (wire : List (List ℕ)) × (internalsend fuel sender.links
          sender.me.num count_id item
        ≡ some (calls, u16 (count_id + 1)))
      × (carry sendto random1 random2 0 calls sender ≡ some (wire, sender))
      × (arrive max wire ≡ some (frames calls))
      × (receive_all (frames calls) s [] ≡ turned (delivery_of item ∷ []) [] s)
carry-receive_all sendto random1 random2 s sender host count_id mtu max fuel item free off link
      known link_in low high not_four not_full room v bytes id_in enough here =
    let parts =
      datagrams-Parts fuel mtu count_id item low high v bytes id_in enough not_full not_four in
    let sent =
      internalsend-receive_all s sender.links sender.me.num count_id mtu fuel item link low high v
        id_in enough here in
    let node = item.first_dest_link in
    let same =
      calls-made sender.links sender.me.num count_id mtu fuel item sent.0 link high parts sent.1 in
    (
      sent.0,
      messages node parts.all,
      sent.1,
      subst
          (λ (cs : List LinkCall).
            carry sendto random1 random2 0 cs sender ≡ some (messages node parts.all, sender))
          same
          (carry-Fits sendto random1 random2 max mtu node host sender free off link known link_in
            high room 0 parts.all parts.fit),
      subst (λ (cs : List LinkCall). arrive max (messages node parts.all) ≡ some (frames cs)) same
          (arrive-Fits sendto random1 random2 max mtu node host sender free off link known link_in
            high room parts.all parts.fit),
      sent.2,
    )
