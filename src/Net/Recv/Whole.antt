-- ===== src/Net/Recv/Whole.antt =====
-- A packet in one datagram, while nothing is pending at the host that it is for.
use network_layer_full.Base.{
  ◌+◌, ◌%◌, ◌^◌, ◌≤◌, ◌≡◌, true, false, some, [], ◌∷◌, append-nil, arith, ◌==◌, ==_refl, eq→==,
  length, take, take-all, size_mod,
}
use network_layer_full.Net.Datagram.{Datagram, more_bit, offset_of, buildsenddatagram}
use network_layer_full.Net.Datagram.RoundTrip.{IsDatagram}
use network_layer_full.Net.Packs.{
  Pack, getid, joined, sizes, removeid, getpack, get_from, got, insertoffset, insert_first,
  initpacklst,
}
use network_layer_full.Net.Recv.Accept.{Delivery, accept, after_insert, take_out}
use network_layer_full.Net.Recv.Own.{internalrecv-sent}
use network_layer_full.Net.Recv.Turn.{turned, for_me, hand_on, internalrecv}
use network_layer_full.Net.Sending.{NetState}

entry : Datagram → Pack
entry d = record {
  id = d.id;
  src = d.src;
  count_size = d.size;
  total_size = d.size;
  offs = d ∷ [];
  cyclic = false;
}

-- What goes up.
abbrev pub contents : Datagram → Delivery
contents d = record { protocol = d.protocol; src = d.src; size = d.size; payload = d.payload }

pub accept-whole :
    (d : Datagram)
    → d.frag ≡ 0
    → length d.payload ≡ d.size
    → d.size ≤ 2 ^ 15
    → accept [] d ≡ some (contents d ∷ [], [])
unfolding accept after_insert take_out entry
accept-whole d start sized small =
    let whole : take d.size d.payload ≡ d.payload =
      take-all d.size d.payload (omega (arith, sized)) in
    let last : (more_bit d.frag == 0) ≡ true = ground (arith, start) in
    let total : (d.size + offset_of d.frag) % size_mod ≡ d.size = omega (arith, start, small) in
    let zero_more : d.size + 0 ≡ d.size = omega arith in
    let step : removeid (entry d ∷ []) d.id d.src ≡ [] =
      unfold removeid in rw (==_refl d.id, ==_refl d.src) in
    let got_it : getpack (entry d ∷ []) d.id d.src ≡ got d.payload d.size [] =
      unfold getpack get_from getid joined sizes in
      rw (
        ==_refl d.id,
        ==_refl d.src,
        zero_more,
        ==_refl d.size,
        step,
        append-nil (take d.size d.payload),
        whole,
      ) in
    unfold insertoffset insert_first initpacklst in rw (last, total, ==_refl d.size, got_it)

-- A packet of the transport layer that another host has passed on.
pub internalrecv-whole :
    (s : NetState) (d : Datagram)
    → IsDatagram d
    → d.dest ≡ s.routing.num
    → d.protocol ≡ 2
    → d.frag ≡ 0
    → d.size ≤ 2 ^ 15
    → internalrecv s [] (buildsenddatagram d).1 ≡ turned (contents d ∷ []) [] s
unfolding for_me hand_on buildsenddatagram
internalrecv-whole s d v here two start small =
    let mine : (d.dest == s.routing.num) ≡ true = eq→== d.dest s.routing.num here in
    let out = accept-whole (buildsenddatagram d).0 start v.sized small in
    rw (internalrecv-sent s [] d v, mine, out, two)
