-- ===== src/Net/Recv/Disorder.antt =====
-- Datagrams of one packet that do not arrive once each and in order: net_layer/list/net_list.c
-- under the receiving thread of net_layer/net_layer.c.
use network_layer_full.Base.{
  ℕ, ◌+◌, ◌%◌, ◌^◌, ◌≤◌, ◌<◌, ◌≡◌, refl, ap, ◌∙◌, inl, inr, Bool-cases, true, false, none, some,
  List, [], ◌∷◌, ◌++◌, append-nil, arith, ◌==◌, eq→==, length, length-take, length-drop, take,
  take-all, drop, size_mod,
}
use network_layer_full.Net.Datagram.{
  Datagram, net_header_size, more_bit, offset_of, buildsenddatagram,
}
use network_layer_full.Net.Datagram.RoundTrip.{IsDatagram}
use network_layer_full.Net.Frag.{Fragment, fragpack, frag_size}
use network_layer_full.Net.Frag.Laws.{IsCut, fragpack_lem, frag_size_bounds}
use network_layer_full.Net.Packs.{
  Pack, getid, insertoffset, insert_at, insert_more, insert_first, initpacklst, addoffset, walk,
  walk_circle, joined, sizes, removeid, last_total, has_key,
}
use network_layer_full.Net.Recv.Accept.{accept, accept_all, after_insert}
use network_layer_full.Net.Recv.Own.{internalrecv-sent}
use network_layer_full.Net.Recv.Turn.{crash, for_me, internalrecv}
use network_layer_full.Net.Send.{WaitListItem, from_fragment, from_fragments}
use network_layer_full.Net.Sending.{NetState}

accept-broken :
    (packs : List Pack) (p : Pack) (x y : Datagram) (ys : List Datagram) (d : Datagram)
    → getid packs d.id d.src ≡ some p
    → p.offs ≡ x ∷ y ∷ ys
    → (offset_of x.frag + d.size) % size_mod ≡ offset_of d.frag
    → accept packs d ≡ none
unfolding accept insertoffset insert_at insert_more addoffset walk walk_circle after_insert
accept-broken [] p x y ys d here nodes next = absurd (unfold getid in cc)
accept-broken (q ∷ qs) p x y ys d here nodes next =
    let hit : ((offset_of x.frag + d.size) % size_mod == offset_of d.frag) ≡ true =
      eq→== ((offset_of x.frag + d.size) % size_mod) (offset_of d.frag) next in
    elim (Bool-cases p.cyclic) [
      | inl circle ↦ simp (here, nodes, circle, hit) refl
      | inr straight ↦ simp (here, nodes, straight, hit) refl
    ]

-- While at least two datagrams of a packet are stored, a datagram of this packet that arrives
-- intact for this host and starts where the first stored one would end if it had the size of the
-- new one (so a repeated second datagram of the same size as the first) makes the receiving thread
-- write through a null pointer.
pub internalrecv-broken :
    (s : NetState) (packs : List Pack) (p : Pack) (x y : Datagram) (ys : List Datagram)
    (d : Datagram)
    → IsDatagram d
    → d.dest ≡ s.routing.num
    → getid packs d.id d.src ≡ some p
    → p.offs ≡ x ∷ y ∷ ys
    → (offset_of x.frag + d.size) % size_mod ≡ offset_of d.frag
    → internalrecv s packs (buildsenddatagram d).1 ≡ crash
unfolding buildsenddatagram for_me
internalrecv-broken s packs p x y ys d v mine here nodes next =
    let up : (d.dest == s.routing.num) ≡ true = eq→== d.dest s.routing.num mine in
    let out = accept-broken packs p x y ys (buildsenddatagram d).0 here nodes next in
    rw (internalrecv-sent s packs d v, up, out)

late : Datagram → Pack
late d = record {
  id = d.id;
  src = d.src;
  count_size = d.size;
  total_size = last_total d;
  offs = d ∷ [];
  cyclic = false;
}

-- The last fragment, with nothing pending.
accept-last_first :
    (d : Datagram)
    → more_bit d.frag ≡ 0
    → (last_total d == d.size) ≡ false
    → accept [] d ≡ some ([], late d ∷ [])
unfolding accept insertoffset insert_first initpacklst after_insert late
accept-last_first d last part =
    let on : (more_bit d.frag == 0) ≡ true = eq→== (more_bit d.frag) 0 last in rw (on, part)

accept-first_last :
    (d e : Datagram) (total : ℕ)
    → e.id ≡ d.id
    → e.src ≡ d.src
    → more_bit e.frag ≡ 1
    → (offset_of d.frag == offset_of e.frag) ≡ false
    → last_total d ≡ total
    → (d.size + e.size) % size_mod ≡ total
    → sizes (d ∷ e ∷ []) ≡ total
    → accept (late d ∷ []) e
      ≡ some (
        record { protocol = e.protocol; src = e.src; size = total; payload = joined (d ∷ e ∷ []) }
            ∷ [],
        [],
      )
unfolding accept insertoffset insert_at insert_more after_insert late
accept-first_last d e total ei es more apart last count sum =
    let on : (more_bit e.frag == 0) ≡ false = ground arith in
    let key : has_key e.id e.src (late d) ≡ true = ground arith in
    let key' : has_key d.id d.src (late d) ≡ true = ground arith in
    let complete : (total == total) ≡ true = ground arith in
    unfold removeid in rw (key, apart, on, count, last, complete, key, key, sum, complete, key')

two_parts :
    (fs : ℕ) (bytes : List ℕ) (frags : List Fragment)
    → fs < length bytes
    → length bytes ≤ fs + fs
    → IsCut fs false 0 bytes frags
    → (g : Fragment) × (h : Fragment) × (frags ≡ g ∷ h ∷ []) × IsCut fs false 0 bytes (g ∷ h ∷ [])
two_parts fs bytes [] more most cut = absurd cut
two_parts fs bytes (g ∷ []) more most cut = absurd (omega arith)
two_parts fs bytes (g ∷ h ∷ []) more most cut = (g, h, refl, cut)
two_parts fs bytes (g ∷ h ∷ k ∷ frags) more most cut = absurd (omega (arith, length-drop fs bytes))

accept_all-pair :
    (item : WaitListItem) (id fs : ℕ) (g h : Fragment)
    → 0 < fs
    → length item.payload ≡ item.size
    → item.size ≤ 2 ^ 15
    → IsCut fs false 0 item.payload (g ∷ h ∷ [])
    → accept_all [] (from_fragments item id (h ∷ g ∷ []))
      ≡ some (
        record {
          protocol = item.protocol;
          src = item.src;
          size = item.size;
          payload = drop fs item.payload ++ take fs item.payload;
        }
            ∷ [],
        [],
      )
unfolding accept_all from_fragments
accept_all-pair item id fs g h pos len top cut =
    let d : Datagram = from_fragment item id h in
    let e : Datagram = from_fragment item id g in
    let left = length-drop fs item.payload in
    let sizes_are : (g.size ≡ fs) × (h.size + fs ≡ item.size) = (cut.1, omega arith) in
    let frags_are : (g.frag ≡ 2 ^ 15) × (h.frag ≡ fs) = (omega arith, omega arith) in
    let total : last_total d ≡ item.size = omega arith in
    let part : (last_total d == d.size) ≡ false = ground arith in
    let apart : (offset_of d.frag == offset_of e.frag) ≡ false = ground arith in
    let first : accept [] d ≡ some ([], late d ∷ []) = accept-last_first d (omega arith) part in
    let second =
      accept-first_last d e item.size refl refl (omega arith) apart total (omega arith)
        (unfold sizes in omega arith) in
    let head : take g.size g.payload ≡ take fs item.payload =
      rw (cut.0, cut.1)
        (take-all fs (take fs item.payload) (omega (arith, length-take fs item.payload))) in
    let tail : take h.size h.payload ≡ drop fs item.payload =
      rw (cut.4.0, cut.4.1)
        (take-all (length (drop fs item.payload)) (drop fs item.payload) (omega arith)) in
    let bytes : joined (d ∷ e ∷ []) ≡ drop fs item.payload ++ take fs item.payload =
      unfold joined in rw (tail, head, append-nil (take fs item.payload)) in
    rw (first, second, bytes)

-- A packet of at most 2 ^ 15 bytes that is cut into two fragments: a receiver with nothing pending
-- that gets the second fragment before the first hands up a packet of the sender's size whose
-- bytes are those of the second fragment, then those of the first.
pub accept_all-swapped :
    (item : WaitListItem) (id mtu fuel : ℕ)
    → length item.payload ≡ item.size
    → mtu < item.size + net_header_size
    → item.size ≤ frag_size mtu + frag_size mtu
    → 28 ≤ mtu
    → mtu < 2 ^ 16
    → item.size ≤ 2 ^ 15
    → item.size < fuel
    → (g : Fragment) × (h : Fragment) × (fragpack fuel item.payload item.size mtu 0
        ≡ some (1, g ∷ h ∷ []))
      × (accept_all [] (from_fragments item id (h ∷ g ∷ []))
          ≡ some (
            record {
              protocol = item.protocol;
              src = item.src;
              size = item.size;
              payload = drop (frag_size mtu) item.payload ++ take (frag_size mtu) item.payload;
            }
                ∷ [],
            [],
          ))
accept_all-swapped item id mtu fuel len big most low high top enough =
    let cut = fragpack_lem fuel item.payload item.size mtu len big low high top enough in
    let room = frag_size_bounds mtu low high in
    let two = two_parts (frag_size mtu) item.payload cut.0 (omega arith) (omega arith) cut.2 in
    (
      two.0,
      two.1,
      cut.1 ∙ ap (λ (l : List Fragment). some (1, l)) two.2,
      accept_all-pair item id (frag_size mtu) two.0 two.1 (omega arith) len top two.3,
    )
