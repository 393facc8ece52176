-- ===== src/Tests/Hops.antt =====
-- Examples for packets on their way over the links: net_layer/net_layer.c.
use network_layer_full.Tests.Topologies.{new_sems-IsNew, new_sems}
use network_layer_full.Base.{
  ℕ, ◌<◌, ◌≡◌, inr, refl, false, none, some, List, [], ◌∷◌, arith, if◌then◌else◌, ◌==◌,
}
use network_layer_full.Base.Int.{pos}
use network_layer_full.Topology.{Links, getmtu}
use network_layer_full.Link.Send.{LinkState, too_big, link_send}
use network_layer_full.Net.Datagram.{Datagram, buildsenddatagram}
use network_layer_full.Net.Datagram.RoundTrip.{IsDatagram}
use network_layer_full.Net.Packs.{Pack, getid}
use network_layer_full.Net.Recv.Forward.{relay}
use network_layer_full.Net.Recv.OneLink.{IsPacket}
use network_layer_full.Net.Recv.Pending.{internalrecv-crash}
use network_layer_full.Net.Recv.Turn.{turned, crash, internalrecv}
use network_layer_full.Net.Routes.{Routing, hostreachable}
use network_layer_full.Net.Send.{WaitListItem}
use network_layer_full.Net.Sending.{NetState, LinkCall, internalsend}
use network_layer_full.Link.Codec.{buildsendframe, receive}
use network_layer_full.Link.Truncated.{is_accepted}
use network_layer_full.Net.Sending.Refused.{internalsend-too_big, frame_of, internalsend-lost}
use network_layer_full.Net.WaitList.{WaitList, initial, wait_list_remove}
use network_layer_full.Net.WaitList.Queue.{Represents, initial-Represents}

abbrev pub bytes : List ℕ
bytes = 1 ∷ 2 ∷ 3 ∷ 4 ∷ 5 ∷ 6 ∷ 7 ∷ 8 ∷ 9 ∷ 10 ∷ 11 ∷ []

-- A packet of host 2 for host 3, over the link between them.
abbrev pub packet : WaitListItem
packet = record {
  dest = 3;
  src = 2;
  payload = bytes;
  offset = 0;
  ttl = 6;
  size = 11;
  protocol = 1;
  id = 0;
  first_dest_link = 3;
}

abbrev pub packet-IsPacket : IsPacket packet
packet-IsPacket = record {
  upper = refl;
  at_start = refl;
  sized = refl;
  small = omega arith;
  ttl_in = omega arith;
  dest_in = omega arith;
  src_in = omega arith;
}

-- Host `num`; packets for host 4 go over host 3.
abbrev pub routing : ℕ → Routing
routing num = record {
  num = num;
  neighbors = λ i. 0;
  routes = λ i.
      if i == 3
      then record { dest = 4; cost = 2; gateway = 3 }
      else record { dest = 0; cost = 0; gateway = 0 };
}

abbrev pub state : ℕ → NetState
state num = record { routing = routing num; waiting = initial packet new_sems; wait_item = packet }

abbrev pub links : ℕ → Links
links mtu i j = pos mtu

abbrev pub datagram : ℕ → Datagram
datagram dest = record {
  size = 3;
  id = 77;
  frag = 0;
  protocol = 1;
  ttl = 0;
  dest = dest;
  src = 2;
  payload = 1 ∷ 2 ∷ 3 ∷ [];
  checksum = 0;
}

datagram-IsDatagram : (dest : ℕ) → dest < 10 → IsDatagram (datagram dest)
datagram-IsDatagram dest h = record {
  size_in = omega arith;
  id_in = omega arith;
  frag_in = omega arith;
  protocol_in = omega arith;
  ttl_in = omega arith;
  dest_in = omega arith;
  src_in = omega arith;
  sized = refl;
}

-- A packet of another host, of which one fragment has arrived.
abbrev pub half : Pack
half = record {
  id = 9;
  src = 5;
  count_size = 3;
  total_size = 0;
  offs = record (datagram 3) { id = 9; src = 5; frag = 32768 } ∷ [];
  cyclic = false;
}

internalrecv-crash_example :
    internalrecv (state 3) (half ∷ []) (buildsenddatagram (datagram 3)).1 ≡ crash
internalrecv-crash_example =
    internalrecv-crash (state 3) half [] (datagram 3) (datagram-IsDatagram 3 (omega arith)) refl
      (unfold getid in refl) (omega arith)

-- The datagram's `ttl` is 0.
relay_example :
    (w : WaitList) × (item : WaitListItem) × (w' : WaitList) × (internalrecv
        (state 2)
        []
        (buildsenddatagram (datagram 4)).1
      ≡ turned [] [] (record (state 2) { waiting = w }))
    × (wait_list_remove w ≡ some (item, w'))
    × Represents w' []
    × (internalsend 12 (links 1500) 2 5 item
        ≡ some (
          record {
            dest = hostreachable (routing 2) 4;
            bytes = (buildsenddatagram (record (datagram 4) { protocol = 2; ttl = 255 })).1;
            size = 23;
          }
              ∷ [],
          5,
        ))
relay_example =
    relay (state 2) [] (links 1500) 5 1500 12 (datagram 4) (datagram-IsDatagram 4 (omega arith))
      (omega arith) (unfold hostreachable in omega arith)
      (initial-Represents packet new_sems new_sems-IsNew) (unfold getmtu hostreachable in refl)
      (omega arith) (omega arith)

abbrev pub link_state : LinkState
link_state = record {
  me = record { num = 2; port = 5003; ip_addr = 0 };
  hosts = [];
  links = links 28;
  garbler = record {
    loss_fraction = pos 0;
    corruption_fraction = pos 0;
    duplication_fraction = pos 0;
  };
  slot = none;
}

internalsend-too_big_example :
    (c : LinkCall) × (cs : List LinkCall) × (next : ℕ) × (internalsend 12 (links 28) 2 7 packet
      ≡ some (c ∷ cs, next))
    × (link_send link_state c.dest c.bytes c.size ≡ too_big)
internalsend-too_big_example =
    internalsend-too_big link_state 7 28 12 packet (unfold getmtu in refl) (omega arith) refl refl
      refl (omega arith) (omega arith) (inr (omega arith, refl, omega arith))

-- The frame for the first 8 of the 11 bytes has 40 bytes, and the buffer 28.
internalsend-lost_example :
    (c : LinkCall) × (cs : List LinkCall) × (next : ℕ) × (internalsend 12 (links 28) 2 7 packet
      ≡ some (c ∷ cs, next))
    × (is_accepted (receive 28 (buildsendframe (frame_of c)).1) ≡ false)
internalsend-lost_example =
    internalsend-lost (links 28) 2 7 28 12 packet (unfold getmtu in refl) (omega arith)
      (omega arith) (omega arith) refl refl refl (omega arith) (omega arith) (omega arith)
