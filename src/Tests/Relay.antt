-- ===== src/Tests/Relay.antt =====
-- An example for a packet that goes over a host in between.
use network_layer_full.Tests.Topologies.{new_sems-IsNew, new_sems}
use network_layer_full.Base.{ℕ, ◌≡◌, refl, some, List, [], ◌∷◌, arith}
use network_layer_full.Base.Int.{ℤ, pos}
use network_layer_full.Topology.{Host, getmtu, findhost}
use network_layer_full.Link.Send.{LinkState}
use network_layer_full.Net.Carry.{carry, arrive}
use network_layer_full.Net.Carry.TwoHops.{IsHop, carry-relay-receive_all}
use network_layer_full.Net.Recv.OneLink.{IsPacket, delivery_of}
use network_layer_full.Net.Recv.Turn.{turned, receive_all}
use network_layer_full.Net.Routes.{hostreachable}
use network_layer_full.Net.Send.{WaitListItem}
use network_layer_full.Net.Sending.{LinkCall, internalsend}
use network_layer_full.Net.WaitList.{WaitList, wait_list_remove}
use network_layer_full.Net.WaitList.Queue.{Represents, initial-Represents}
use network_layer_full.Tests.Hops.{packet, state, links, link_state}

-- Of host 2 for host 4, over host 3.
abbrev far_packet : WaitListItem
far_packet = record packet { dest = 4; payload = 7 ∷ 8 ∷ 9 ∷ []; size = 3; ttl = 0 }

abbrev host_at : ℕ → Host
host_at num = record { num = num; port = 5004; ip_addr = 0 }

-- The link layer of a host, over links of an MTU of 40 bytes.
abbrev link_at : ℕ → LinkState
link_at num = record link_state {
  me = host_at num;
  hosts = host_at 1 ∷ host_at 2 ∷ host_at 3 ∷ host_at 4 ∷ [];
  links = links 40;
}

abbrev sendto : ℕ → List ℕ → ℤ
sendto n msg = pos 0

abbrev random : ℕ → ℕ
random i = i

near-IsHop : IsHop (link_at 2) (host_at 3) 3 3 40 51
near-IsHop = record {
  free = refl;
  off = refl;
  up = unfold getmtu in refl;
  known = unfold findhost in refl;
  node_in = omega arith;
  fits = omega arith;
  high = omega arith;
  room = omega arith;
}

next-IsHop : IsHop (link_at 3) (host_at 4) (hostreachable (state 3).routing 4) 3 40 51
unfolding hostreachable
next-IsHop = record {
  free = refl;
  off = refl;
  up = unfold getmtu in refl;
  known = unfold findhost in refl;
  node_in = omega arith;
  fits = omega arith;
  high = omega arith;
  room = omega arith;
}

far_packet-IsPacket : IsPacket far_packet
far_packet-IsPacket = record {
  upper = refl;
  at_start = refl;
  sized = refl;
  small = omega arith;
  ttl_in = omega arith;
  dest_in = omega arith;
  src_in = omega arith;
}

carry-relay-receive_all_example :
    (calls : List LinkCall) × (wire : List (List ℕ)) × (payloads : List (List ℕ)) × (w : WaitList)
    × (item : WaitListItem) × (w' : WaitList) × (calls' : List LinkCall) × (wire' : List (List ℕ))
    × (payloads' : List (List ℕ)) × (internalsend 12 (links 40) 2 7 far_packet ≡ some (calls, 8))
    × (carry sendto random random 0 calls (link_at 2) ≡ some (wire, link_at 2))
    × (arrive 51 wire ≡ some payloads)
    × (receive_all payloads (state 3) [] ≡ turned [] [] (record (state 3) { waiting = w }))
    × (wait_list_remove w ≡ some (item, w'))
    × Represents w' []
    × (internalsend 12 (links 40) 3 9 item ≡ some (calls', 9))
    × (carry sendto random random 0 calls' (link_at 3) ≡ some (wire', link_at 3))
    × (arrive 51 wire' ≡ some payloads')
    × (receive_all payloads' (state 4) []
        ≡ turned (record (delivery_of far_packet) { protocol = 2 } ∷ []) [] (state 4))
carry-relay-receive_all_example =
    carry-relay-receive_all sendto random random (link_at 2) (link_at 3) (state 3) (state 4)
      (host_at 3) (host_at 4) 7 9 40 40 51 51 12 far_packet far_packet-IsPacket
      (omega arith, (omega arith, (omega arith, tt))) near-IsHop next-IsHop refl (omega arith)
      (unfold hostreachable in omega arith) (initial-Represents packet new_sems new_sems-IsNew) refl
      (omega arith)
