-- ===== src/Tests/Wires.antt =====
-- Examples for packets and segments through the link layer, and for fragments out of order.
use network_layer_full.Tests.Topologies.{new_sems-IsNew, new_sems}
use network_layer_full.Base.{
  ℕ, ◌≡◌, refl, false, none, some, List, [], ◌∷◌, ◌++◌, arith, take, drop, AllBytes,
}
use network_layer_full.Base.Int.{ℤ, pos}
use network_layer_full.Topology.{Host, getmtu, findhost}
use network_layer_full.Link.Send.{LinkState}
use network_layer_full.Net.Datagram.{Datagram, buildsenddatagram}
use network_layer_full.Net.Packs.{Pack, getid}
use network_layer_full.Net.Recv.Accept.{Delivery}
use network_layer_full.Net.Recv.Own.{frames}
use network_layer_full.Net.Recv.Turn.{turned, crash, internalrecv, receive_all}
use network_layer_full.Net.Routes.{hostreachable}
use network_layer_full.Net.Send.{WaitListItem}
use network_layer_full.Net.Sending.{NetState, LinkCall, internalsend}
use network_layer_full.Transport.Point.{ServicePoint}
use network_layer_full.Transport.Segment.{Segment, buildsendsegment}
use network_layer_full.Transport.Wire.{posted}
use network_layer_full.Transport.Wire.{internalrecv as transport_internalrecv}
use network_layer_full.Transport.Wire.Stack.{IsReady, net_send-wire-posted}
use network_layer_full.Net.Carry.{carry, arrive}
use network_layer_full.Net.Carry.OneLink.{carry-receive_all}
use network_layer_full.Net.Frag.{Fragment, frag_size, fragpack}
use network_layer_full.Net.Recv.Disorder.{internalrecv-broken, accept_all-swapped}
use network_layer_full.Net.Recv.Accept.{accept_all}
use network_layer_full.Net.Send.{from_fragments}
use network_layer_full.Net.Sending.{queued, net_send}
use network_layer_full.Net.WaitList.{WaitList, wait_list_remove}
use network_layer_full.Net.WaitList.Queue.{Represents, initial-Represents}
use network_layer_full.Tests.Hops.{
  bytes, packet, packet-IsPacket, routing, state, links, datagram, half, link_state,
}

-- Host 2 reaches host 3 directly.
abbrev near : NetState
near = record (state 2) {
  routing = record (routing 2) { routes = λ i. record { dest = 3; cost = 1; gateway = 2 } };
}

abbrev segment : Segment
segment = record {
  src = 0;
  dest = 1;
  seq_num = 70000;
  ack_num = 0;
  flags = 0;
  window_size = 8;
  payload = 7 ∷ 8 ∷ 9 ∷ [];
  checksum = 0;
}

abbrev point : ServicePoint
point = record {
  dest = 2;
  dest_sp = 0;
  window_size = 8;
  flag_con = 2;
  con_held = false;
  seq_num_s = 0;
  prev_seq_num_s = 0;
  end_seq_num_s = 0;
  seq_num_r = 0;
  prev_seq_num_r = 0;
  end_seq_num_r = 0;
  acks = [];
  segs = [];
  segs_aux = [];
  send_buff = [];
  send_size = 0;
  buffer_full = false;
}

abbrev other : Host
other = record { num = 3; port = 5004; ip_addr = 0 }

-- Host 2 with a link of MTU 29 to host 3.
abbrev at_wire : LinkState
at_wire = record link_state { hosts = other ∷ other ∷ other ∷ []; links = links 29 }

abbrev sendto : ℕ → List ℕ → ℤ
sendto n msg = pos 0

abbrev random : ℕ → ℕ
random i = i

abbrev packet-AllBytes : AllBytes bytes
packet-AllBytes = (
  omega arith,
  (
    omega arith,
    (
      omega arith,
      (
        omega arith,
        (
          omega arith,
          (
            omega arith,
            (omega arith, (omega arith, (omega arith, (omega arith, (omega arith, tt))))),
          ),
        ),
      ),
    ),
  ),
)

carry-receive_all_example :
    (calls : List LinkCall) × (wire : List (List ℕ)) × (internalsend 12 (links 29) 2 65535 packet
      ≡ some (calls, 0))
    × (carry sendto random random 0 calls at_wire ≡ some (wire, at_wire))
    × (arrive 40 wire ≡ some (frames calls))
    × (receive_all (frames calls) (state 3) []
        ≡ turned (record { protocol = 1; src = 2; size = 11; payload = bytes } ∷ []) [] (state 3))
carry-receive_all_example =
    carry-receive_all sendto random random (state 3) at_wire other 65535 29 40 12 packet refl refl
      (unfold getmtu in refl) (unfold findhost in refl) (omega arith) (omega arith) (omega arith)
      (omega arith) (omega arith) (omega arith) packet-IsPacket packet-AllBytes (omega arith)
      (omega arith) refl

near-IsReady : IsReady near (state 3) at_wire other segment 3 3 29 40
near-IsReady = record {
  segment = record {
    src_in = omega arith;
    dest_in = omega arith;
    seq_in = omega arith;
    ack_in = omega arith;
    flags_in = omega arith;
    window_in = omega arith;
    sized = refl;
  };
  bytes = (omega arith, (omega arith, (omega arith, tt)));
  small = omega arith;
  dest_in = omega arith;
  num_in = omega arith;
  real = omega arith;
  direct = unfold hostreachable in refl;
  empty = initial-Represents packet new_sems new_sems-IsNew;
  me = refl;
  free = refl;
  off = refl;
  up = unfold getmtu in refl;
  known = unfold findhost in refl;
  low = omega arith;
  high = omega arith;
  not_four = omega arith;
  not_full = omega arith;
  room = omega arith;
  here = refl;
}

net_send-wire-posted_example :
    (s' : NetState) × (item : WaitListItem) × (w : WaitList) × (calls : List LinkCall)
    × (wire : List (List ℕ)) × (payloads : List (List ℕ)) × (d : Delivery) × (net_send near 3
          (buildsendsegment segment 3).1
          20
          1
        ≡ queued s')
    × (wait_list_remove s'.waiting ≡ some (item, w))
    × Represents w []
    × (internalsend 21 (links 29) 2 7 item ≡ some (calls, 8))
    × (carry sendto random random 0 calls at_wire ≡ some (wire, at_wire))
    × (arrive 40 wire ≡ some payloads)
    × (receive_all payloads (state 3) [] ≡ turned (d ∷ []) [] (state 3))
    × (transport_internalrecv (none ∷ some point ∷ []) d
        ≡ posted 1 (record { segment = (buildsendsegment segment 3).0; size = 20; src = 2 }))
net_send-wire-posted_example =
    net_send-wire-posted sendto random random near (state 3) at_wire other (none ∷ some point ∷ [])
      point segment 3 3 7 29 40 21 near-IsReady (omega arith) (omega arith) refl

-- Two of three fragments of 3 bytes.
abbrev two_of_three : Pack
two_of_three = record {
  id = 77;
  src = 2;
  count_size = 6;
  total_size = 0;
  offs = record (datagram 3) { frag = 32768 } ∷ record (datagram 3) { frag = 32771 } ∷ [];
  cyclic = false;
}

-- The second comes again.
abbrev second_again : Datagram
second_again = record (datagram 3) { frag = 32771 }

internalrecv-broken_example :
    internalrecv (state 3) (half ∷ two_of_three ∷ []) (buildsenddatagram second_again).1 ≡ crash
internalrecv-broken_example =
    internalrecv-broken (state 3) (half ∷ two_of_three ∷ []) two_of_three
      (record (datagram 3) { frag = 32768 }) second_again [] second_again
      (record {
        size_in = omega arith;
        id_in = omega arith;
        frag_in = omega arith;
        protocol_in = omega arith;
        ttl_in = omega arith;
        dest_in = omega arith;
        src_in = omega arith;
        sized = refl;
      })
      refl (unfold getid in refl) refl refl

accept_all-swapped_example :
    (g : Fragment) × (h : Fragment) × (fragpack 12 bytes 11 28 0 ≡ some (1, g ∷ h ∷ []))
    × (accept_all [] (from_fragments packet 5 (h ∷ g ∷ []))
        ≡ some (
          record {
            protocol = 1;
            src = 2;
            size = 11;
            payload = drop (frag_size 28) bytes ++ take (frag_size 28) bytes;
          }
              ∷ [],
          [],
        ))
accept_all-swapped_example =
    accept_all-swapped packet 5 28 12 refl (omega arith) (unfold frag_size in omega arith)
      (omega arith) (omega arith) (omega arith) (omega arith)
