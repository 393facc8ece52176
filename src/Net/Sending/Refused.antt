-- ===== src/Net/Sending/Refused.antt =====
-- Datagrams that fit the MTU, but not what the link layer makes of it.
use network_layer_full.Base.{
  ℕ, ◌+◌, ◌%◌, ◌^◌, ◌≤◌, ◌<◌, ◌≡◌, ◌⊎◌, inl, inr, true, false, some, List, ◌∷◌, arith, leb, le→leb,
  length, take,
}
use native.Mathlib.Decide.{dec_le}
use network_layer_full.Base.Int.{pos}
use network_layer_full.Topology.{Links, getmtu}
use network_layer_full.Link.Codec.{Frame, buildsendframe, receive}
use network_layer_full.Link.Send.{LinkState, too_big, send_over, link_send}
use network_layer_full.Link.Truncated.{is_accepted, receive-truncated}
use network_layer_full.Net.Frag.{frag_size}
use network_layer_full.Net.Send.{WaitListItem}
use network_layer_full.Net.Sending.{LinkCall, internalsend}
use network_layer_full.Net.Sending.First.{uncut-First, cut-First}

too_big-link_send :
    (s : LinkState) (dest size mtu : ℕ) (bytes : List ℕ)
    → getmtu s.links s.me.num dest ≡ some (pos mtu)
    → mtu ≤ size
    → link_send s dest bytes size ≡ too_big
unfolding link_send send_over
too_big-link_send s dest size mtu bytes link over =
    let long : leb mtu size ≡ true = le→leb mtu size over in rw (link, long)

-- Over a link of an MTU from 28 on that is four more than a multiple of 8, the first datagram of
-- every packet of this host that must be cut (of at most 2 ^ 15 bytes) is exactly as long as the
-- MTU, and so is the datagram of a packet, over any link, whose bytes and header fill the MTU.
-- The turn of the sending thread hands it to the link layer, which answers ERROR: it wants the
-- size below the MTU.
pub internalsend-too_big :
    (s : LinkState) (count_id mtu fuel : ℕ) (item : WaitListItem)
    → getmtu s.links s.me.num item.first_dest_link ≡ some (pos mtu)
    → mtu < 2 ^ 16
    → item.protocol ≡ 1
    → item.offset ≡ 0
    → length item.payload ≡ item.size
    → item.size ≤ 2 ^ 15
    → item.size < fuel
    → (item.size + 20 ≡ mtu) ⊎ ((28 ≤ mtu) × (mtu % 8 ≡ 4) × (mtu < item.size + 20))
    → (c : LinkCall) × (cs : List LinkCall) × (next : ℕ) × (internalsend fuel s.links s.me.num
          count_id item
        ≡ some (c ∷ cs, next))
      × (link_send s c.dest c.bytes c.size ≡ too_big)
internalsend-too_big s count_id mtu fuel item link high upper start sized small enough (inl full) =
    let f = uncut-First s.links s.me.num count_id mtu fuel item link high upper (omega arith) in
    (
      f.first,
      f.more,
      f.next,
      f.calls,
      too_big-link_send s f.first.dest f.first.size mtu f.first.bytes (rw f.to_node link)
          (omega (arith, f.long)),
    )
internalsend-too_big s count_id mtu fuel item link high upper start sized small enough
      (inr (low, four, big)) =
    let f =
      cut-First s.links s.me.num count_id mtu fuel item link high upper start sized small enough low
        big in
    let full : frag_size mtu + 20 ≡ mtu = unfold frag_size in omega arith in
    (
      f.first,
      f.more,
      f.next,
      f.calls,
      too_big-link_send s f.first.dest f.first.size mtu f.first.bytes (rw f.to_node link)
          (omega (arith, f.long, full)),
    )

-- The frame that the link layer makes of a call.
abbrev pub frame_of : LinkCall → Frame
frame_of c = record { dest = c.dest; size = c.size; payload = take c.size c.bytes; checksum = 0 }

lost_frame :
    (mtu node size : ℕ) (c : LinkCall)
    → c.dest ≡ node
    → c.size ≡ size
    → node < 2 ^ 16
    → 28 ≤ mtu
    → size ≤ mtu
    → mtu < 2 ^ 16
    → mtu < size + 10
    → is_accepted (receive mtu (buildsendframe (frame_of c)).1) ≡ false
lost_frame mtu node size c dest long node_in low fits high over =
    receive-truncated mtu (frame_of c) (omega arith) (omega arith) (omega arith) (omega arith)

-- Over a link of an MTU from 28 on to a receiver whose buffer has just as many bytes, as when no
-- link has a greater MTU: of a packet that with its header is longer than the MTU less 10 bytes
-- (at most 2 ^ 15 bytes long), the first datagram is never accepted by the link layer of the
-- receiver, even if its frame arrives as it was sent.
pub internalsend-lost :
    (links : Links) (num count_id mtu fuel : ℕ) (item : WaitListItem)
    → getmtu links num item.first_dest_link ≡ some (pos mtu)
    → item.first_dest_link < 2 ^ 16
    → 28 ≤ mtu
    → mtu < 2 ^ 16
    → item.protocol ≡ 1
    → item.offset ≡ 0
    → length item.payload ≡ item.size
    → item.size ≤ 2 ^ 15
    → item.size < fuel
    → mtu < item.size + 20 + 10
    → (c : LinkCall) × (cs : List LinkCall) × (next : ℕ) × (internalsend fuel links num count_id
          item
        ≡ some (c ∷ cs, next))
      × (is_accepted (receive mtu (buildsendframe (frame_of c)).1) ≡ false)
internalsend-lost links num count_id mtu fuel item link node_in low high upper start sized small
      enough over =
    elim (dec_le (item.size + 20) mtu) [
      | yes fits ↦
          let f = uncut-First links num count_id mtu fuel item link high upper fits in
          (
            f.first,
            f.more,
            f.next,
            f.calls,
            lost_frame mtu item.first_dest_link (item.size + 20) f.first f.to_node f.long node_in
                low fits high over,
          )
      | no big ↦
          let f =
            cut-First links num count_id mtu fuel item link high upper start sized small enough low
              (omega arith) in
          let long : (frag_size mtu + 20 ≤ mtu) × (mtu < frag_size mtu + 20 + 10) =
            unfold frag_size in omega arith in
          (
            f.first,
            f.more,
            f.next,
            f.calls,
            lost_frame mtu item.first_dest_link (frag_size mtu + 20) f.first f.to_node f.long
                node_in low long.0 high long.1,
          )
    ]
