-- ===== src/Net/Recv/Pending.antt =====
-- The last datagram of a packet whose other datagrams are still to come, or that has no others,
-- while another packet is pending.
use network_layer_full.Base.{true, ◌≡◌, ◌==◌, eq→==, none, List, ◌∷◌}
use network_layer_full.Net.Datagram.{Datagram, more_bit, buildsenddatagram}
use network_layer_full.Net.Datagram.RoundTrip.{IsDatagram}
use network_layer_full.Net.Packs.{Pack, getid, insertoffset, insert_at, insert_new}
use network_layer_full.Net.Recv.Accept.{accept, after_insert}
use network_layer_full.Net.Recv.Own.{internalrecv-sent}
use network_layer_full.Net.Recv.Turn.{crash, for_me, internalrecv}
use network_layer_full.Net.Sending.{NetState}

accept-crash :
    (p : Pack) (packs : List Pack) (d : Datagram)
    → getid (p ∷ packs) d.id d.src ≡ none
    → more_bit d.frag ≡ 0
    → accept (p ∷ packs) d ≡ none
unfolding accept insertoffset insert_at insert_new after_insert
accept-crash p packs d new last =
    let here : (more_bit d.frag == 0) ≡ true = eq→== (more_bit d.frag) 0 last in rw (new, here)

-- While any packet is pending at a host, the datagram of a further packet that arrives intact for
-- this host, that is the first of its packet to arrive and has the flag for more fragments not set
-- (so every packet that was not cut), makes the receiving thread write through a null pointer.
pub internalrecv-crash :
    (s : NetState) (p : Pack) (packs : List Pack) (d : Datagram)
    → IsDatagram d
    → d.dest ≡ s.routing.num
    → getid (p ∷ packs) d.id d.src ≡ none
    → more_bit d.frag ≡ 0
    → internalrecv s (p ∷ packs) (buildsenddatagram d).1 ≡ crash
unfolding buildsenddatagram for_me
internalrecv-crash s p packs d v here new last =
    let mine : (d.dest == s.routing.num) ≡ true = eq→== d.dest s.routing.num here in
    let out = accept-crash p packs (buildsenddatagram d).0 new last in
    rw (internalrecv-sent s (p ∷ packs) d v, mine, out)
