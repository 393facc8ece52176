-- ===== src/Tests/Menu.antt =====
-- Examples for the menu, the table of service points and the end of a connection.
use network_layer_full.Base.{
  ℕ, zero, suc, ◌-◌, ◌≡◌, ◌≢◌, ◌⊎◌, refl, false, true, none, some, [], ◌∷◌, arith, replicate, set,
  get_elem?,
}
use network_layer_full.Base.Int.{pos}
use network_layer_full.Application.Menu.{
  HostState, Found, open_point, connect, garble, shown, crash, choose, config_garbler,
}
use network_layer_full.Application.Menu.Full.{open_point-full}
use network_layer_full.Application.Menu.Options.{IsHost}
use network_layer_full.Application.Menu.Start.{start_host, main-IsHost}
use network_layer_full.Application.Menu.Steps.{chosen, here, next}
use network_layer_full.Garbler.{set_garbler}
use network_layer_full.Net.Routes.{hostreachable}
use network_layer_full.Tests.Topologies.{
  inet_pton, no_host, zeroes, no_item, used_sems, letters, lines, started, starts_2,
}
use network_layer_full.Topology.{getmtu}
use network_layer_full.Transport.Connect.{Received}
use network_layer_full.Transport.Connect.Handshake.{AreConnected}
use network_layer_full.Transport.Point.{
  ServicePoint, Points, fresh, alloc_service_point, dalloc_service_point,
}
use network_layer_full.Transport.Point.Table.{FirstFree, alloc_service_point_lem}
use network_layer_full.Transport.Receive.{recv_thread, recv_turns}
use network_layer_full.Transport.Receive.Closing.{Closes, close_conn-Closes}
use network_layer_full.Transport.Receive.Exchange.{Exchanged, send_thread-Exchanged}
use network_layer_full.Transport.Sender.{Sender, sending}
use network_layer_full.Transport.Receive.Repeated.{recv_turns-fins}
use network_layer_full.Transport.Segment.{Segment}

abbrev raw : Segment
raw = record {
  src = 0;
  dest = 0;
  seq_num = 0;
  ack_num = 0;
  flags = 0;
  window_size = 0;
  payload = [];
  checksum = 0;
}

-- At host 3, connected to point 1 of host 5.
abbrev here_3 : ServicePoint
here_3 = record {
  dest = 5;
  dest_sp = 1;
  window_size = 8;
  flag_con = 2;
  con_held = false;
  seq_num_s = 100;
  prev_seq_num_s = 92;
  end_seq_num_s = 108;
  seq_num_r = 4294967290;
  prev_seq_num_r = 4294967282;
  end_seq_num_r = 3;
  acks = [];
  segs = [];
  segs_aux = [];
  send_buff = [];
  send_size = 0;
  buffer_full = false;
}

-- At host 5, connected to point 0 of host 3.
abbrev there_5 : ServicePoint
there_5 = record here_3 { dest = 3; dest_sp = 0; seq_num_s = 4294967290; seq_num_r = 100 }

connected : AreConnected here_3 there_5 3 5 0 1
connected = record {
  open_p = refl;
  open_q = refl;
  p_to_q = refl;
  q_to_p = refl;
  windows = refl;
  names_p = (refl, refl);
  names_q = (refl, refl);
}

close_conn-Closes_example : Closes here_3 there_5 3 5 0 1 raw raw raw
close_conn-Closes_example =
    close_conn-Closes here_3 there_5 3 5 0 1 raw raw raw connected refl refl (omega arith)
      (omega arith)

-- Host 3 has two bytes to send, and host 5 expects number 100.
abbrev speaker : Sender
speaker = record {
  point = record here_3 { send_buff = 5 ∷ 6 ∷ []; send_size = 2; buffer_full = true };
  sp = 0;
  phase = sending;
  begun = true;
  window_ptr = 0;
  segment_size = 4;
  segment_send_size = 4;
  send_ptr = 0;
  left = 2;
}

abbrev listener : ServicePoint
listener = record there_5 { prev_seq_num_r = 92; end_seq_num_r = 108 }

send_thread-Exchanged_example : Exchanged speaker listener 3 5 1 raw raw raw
send_thread-Exchanged_example = send_thread-Exchanged speaker listener 3 5 1 raw raw raw (record {
  both = record {
    open_p = refl;
    open_q = refl;
    p_to_q = refl;
    q_to_p = refl;
    windows = refl;
    names_p = (refl, refl);
    names_q = (refl, refl);
  };
  free_p = refl;
  free_q = refl;
  phase = refl;
  early = refl;
  window = record {
    room = omega arith;
    behind_it = omega arith;
    ahead = omega arith;
    from_start = omega arith;
    to_end = omega arith;
    ends = omega arith;
  };
  small = omega arith;
  some_bytes = omega arith;
  below = omega arith;
  low = omega arith;
})

abbrev fin : Received
fin = record {
  segment = record raw { flags = 4; seq_num = 100; dest = 1; payload = 102 ∷ [] };
  size = 18;
  src = 3;
}

recv_turns-fins_example :
    recv_turns 1 ((fin, 7, raw, raw) ∷ (fin, 8, raw, raw) ∷ (fin, 9, raw, raw) ∷ []) there_5
    ≡ recv_thread there_5 1 fin 7 raw raw
recv_turns-fins_example =
    recv_turns-fins 1 there_5 fin 7 raw raw ((fin, 8, raw, raw) ∷ (fin, 9, raw, raw) ∷ []) refl
      (refl, (refl, tt))

-- The second slot is free.
abbrev table : Points
table = some here_3 ∷ none ∷ some there_5 ∷ []

alloc_service_point_lem_example :
    ((slot : ℕ) × FirstFree table slot
      × (alloc_service_point here_3 table ≡ (slot, set table slot (some (fresh here_3))))
      × (dalloc_service_point (alloc_service_point here_3 table).1 slot ≡ table))
    ⊎ (((j : ℕ) → get_elem? table j ≢ some none)
        × (alloc_service_point here_3 table ≡ (65535, table)))
alloc_service_point_lem_example = alloc_service_point_lem here_3 table

found : Found
found = record { random = 7; raw_segment = raw; raw_point = here_3; raw_buffer = [] }

abbrev start : HostState
start = start_host (started 2)

-- The user sets the garbler.
abbrev garbled : HostState
garbled = record start {
  link = record (start.link) {
    garbler = record {
      loss_fraction = pos 10;
      corruption_fraction = pos 20;
      duplication_fraction = pos 30;
    };
  };
}

sets_garbler : choose found 2 start (garble (pos 10) (pos 20) (pos 30)) ≡ shown 0 [] garbled []
unfolding choose config_garbler set_garbler
sets_garbler = refl

main-IsHost_example :
    IsHost 2 garbled
    × (getmtu garbled.link.links 1 2 ≡ getmtu garbled.link.links 2 1)
    × ((hostreachable garbled.net.routing 1 ≡ 0)
        ⊎ (hostreachable garbled.net.routing 1 ≡ 2)
        ⊎ (garbled.net.routing.neighbors (hostreachable garbled.net.routing 1 - 1) ≡ 1))
main-IsHost_example =
    main-IsHost inet_pton no_host zeroes no_item used_sems letters (some lines) 2 1 1 2 (started 2)
      garbled starts_2
      (next here (chosen found (garble (pos 10) (pos 20) (pos 30)) 0 [] [] tt sets_garbler))

-- All slots are taken.
abbrev full : HostState
full = record start { points = replicate 16 (some here_3) }

replicate-taken : (n j : ℕ) → get_elem? (replicate n (some here_3)) j ≢ some none
replicate-taken zero j = λ e. cc
replicate-taken (suc n) zero = λ e. cc
replicate-taken (suc n) (suc j) = replicate-taken n j

open_point-full_example :
    (choose found 2 full open_point ≡ shown 65535 [] full [])
    × (choose found 2 full (connect 65535 5 1 8) ≡ crash)
open_point-full_example = open_point-full found 2 5 1 8 full refl (replicate-taken 16)
