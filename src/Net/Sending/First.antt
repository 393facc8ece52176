-- ===== src/Net/Sending/First.antt =====
-- The first call of `link_send` in a turn of the sending thread.
use network_layer_full.Base.{
  ℕ, ◌+◌, ◌^◌, ◌≤◌, ◌<◌, ◌≡◌, refl, true, false, Option, some, List, [], ◌∷◌, arith, ◌==◌, eq→==,
  leb, le→leb, length, u16,
}
use network_layer_full.Base.Int.{pos}
use network_layer_full.Topology.{Links, getmtu}
use network_layer_full.Net.Datagram.{net_header_size, buildsenddatagram}
use network_layer_full.Net.Frag.{Fragment, frag_size, fragpack}
use network_layer_full.Net.Frag.Laws.{IsCut, fragpack_lem}
use network_layer_full.Net.Send.{WaitListItem, from_fragment, from_fragments}
use network_layer_full.Net.Sending.{LinkCall, datagrams, uncut, to_link, internalsend}

-- The turn ends, and its first call is for `node` and `size` bytes.
pub record First (node size : ℕ) (turn : Option (List LinkCall × ℕ)) : Type 0 where
  pub first : LinkCall
  pub more : List LinkCall
  pub next : ℕ
  pub calls : turn ≡ some (first ∷ more, next)
  pub to_node : first.dest ≡ node
  pub long : first.size ≡ size

module _ (links : Links) (num count_id mtu fuel : ℕ) (item : WaitListItem)
    (link : getmtu links num item.first_dest_link ≡ some (pos mtu)) (high : mtu < 2 ^ 16)
    (upper : item.protocol ≡ 1) where
  pub uncut-First :
      item.size + 20 ≤ mtu
      → First item.first_dest_link (item.size + 20) (internalsend fuel links num count_id item)
  unfolding internalsend datagrams fragpack to_link
  uncut-First small =
      let same : u16 mtu ≡ mtu = omega arith in
      let fits : leb (item.size + net_header_size) mtu ≡ true =
        le→leb (item.size + net_header_size) mtu small in
      record {
        first = record {
          dest = item.first_dest_link;
          bytes = (buildsenddatagram (uncut item count_id)).1;
          size = item.size + net_header_size;
        };
        more = [];
        next = u16 (count_id + 1);
        calls = rw (link, same, upper, fits);
        to_node = refl;
        long = refl;
      }

  cut-by :
      (frags : List Fragment)
      → 28 ≤ mtu
      → mtu < length item.payload + 20
      → fragpack fuel item.payload item.size mtu item.offset ≡ some (1, frags)
      → IsCut (frag_size mtu) false 0 item.payload frags
      → First item.first_dest_link (frag_size mtu + 20) (internalsend fuel links num count_id item)
  unfolding internalsend datagrams to_link
  cut-by [] low big e cut = absurd cut
  cut-by (g ∷ []) low big e cut = absurd (unfold frag_size in omega (arith, cut.2))
  cut-by (g ∷ h ∷ gs) low big e cut =
      let same : u16 mtu ≡ mtu = omega arith in
      let up : (item.protocol == 1) ≡ true = eq→== item.protocol 1 upper in
      record {
        first = record {
          dest = item.first_dest_link;
          bytes = (buildsenddatagram (from_fragment item count_id g)).1;
          size = g.size + net_header_size;
        };
        more = to_link item.first_dest_link (from_fragments item count_id (h ∷ gs));
        next = u16 (count_id + 1);
        calls = unfold from_fragments from_fragment in rw (link, same, up, e);
        to_node = refl;
        long = omega (arith, cut.1);
      }

  pub cut-First :
      item.offset ≡ 0
      → length item.payload ≡ item.size
      → item.size ≤ 2 ^ 15
      → item.size < fuel
      → 28 ≤ mtu
      → mtu < item.size + 20
      → First item.first_dest_link (frag_size mtu + 20) (internalsend fuel links num count_id item)
  cut-First start sized small enough low big =
      let cut = fragpack_lem fuel item.payload item.size mtu sized big low high small enough in
      cut-by cut.0 low (omega arith) (rw (start, cut.1)) cut.2
