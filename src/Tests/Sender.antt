-- ===== src/Tests/Sender.antt =====
-- Examples for the sending side of transport_layer/transport_layer.c.
use network_layer_full.Base.{
  ℕ, ◌+◌, ◌^◌, ◌<◌, ◌↔◌, ◌≤◌, ◌≡◌, refl, inl, inr, true, false, some, List, [], ◌∷◌, ◌++◌, take,
  arith,
}
use network_layer_full.Transport.Segment.{Segment}
use network_layer_full.Transport.Acks.Laws.{total}
use network_layer_full.Transport.Acks.{set_ack, in_seq, insert_ack}
use network_layer_full.Transport.Point.{ServicePoint, Output, spawned}
use network_layer_full.Transport.Segs.{Receiver}
use network_layer_full.Transport.Segs.Stream.{content}
use network_layer_full.Transport.Segs.Reading.{arrives, reads}
use network_layer_full.Transport.Segs.Reading
use network_layer_full.Transport.Sender.{
  idle, Sender, send_point, send_thread, turn_of, take_buffer, go_on, begin, send_next,
  after_segment, advance, move_window,
}
use network_layer_full.Transport.Sender.{cut_size, next_segment}
use network_layer_full.Transport.Segment.{transport_header_size}
use network_layer_full.Transport.Connect.{Received, behind}
use network_layer_full.Transport.Receive.Opening.{Opens, connect_point-Opens}
use network_layer_full.Transport.Receive.{judge, again}
use network_layer_full.Transport.Receive.Window.{judge_wrapped, behind-eq_awaited}
use network_layer_full.Transport.Sender.Run.{Event, gives, turns, hears, Round, run, step}
use network_layer_full.Transport.Sender.Window.{run-window}
use network_layer_full.Transport.Sender.EndToEnd.{read-prefix_of_written}

abbrev raw : Segment
raw = record {
  src = 0;
  dest = 0;
  seq_num = 0;
  ack_num = 0;
  flags = 0;
  window_size = 0;
  payload = [];
  checksum = 0;
}

-- An open connection with a window of 4 bytes.
abbrev point : ServicePoint
point = record {
  dest = 3;
  dest_sp = 1;
  window_size = 4;
  flag_con = 2;
  con_held = false;
  seq_num_s = 100;
  prev_seq_num_s = 96;
  end_seq_num_s = 104;
  seq_num_r = 50;
  prev_seq_num_r = 46;
  end_seq_num_r = 54;
  acks = [];
  segs = [];
  segs_aux = [];
  send_buff = [];
  send_size = 0;
  buffer_full = false;
}

abbrev sender : Sender
sender = record {
  point = point;
  sp = 2;
  phase = idle;
  begun = false;
  window_ptr = 0;
  segment_size = 0;
  segment_send_size = 0;
  send_ptr = 0;
  left = 0;
}

-- Six bytes: four go out, and two when the first four are acknowledged.
abbrev events : List Event
events =
    gives (1 ∷ 2 ∷ 3 ∷ 4 ∷ 5 ∷ 6 ∷ [])
    ∷ turns raw
    ∷ turns raw
    ∷ turns raw
    ∷ hears 104
    ∷ turns raw
    ∷ turns raw
    ∷ []

run-window_example : (r : Round) × (run sender events ≡ some r) × (total r.sender.point.acks ≤ 4)
run-window_example = run-window 4 sender events (omega arith) (omega arith) refl refl refl refl refl

abbrev sent_at : ℕ → List ℕ → Segment
sent_at seq_num payload = record {
  src = 2;
  dest = 1;
  seq_num = seq_num;
  ack_num = 0;
  flags = 0;
  window_size = 4;
  payload = payload;
  checksum = 0;
}

abbrev handed_on : List Output
handed_on = spawned (sent_at 100 (1 ∷ 2 ∷ 3 ∷ 4 ∷ [])) 4 ∷ spawned (sent_at 104 (5 ∷ 6 ∷ [])) 2 ∷ []

abbrev sender_after : Sender
sender_after = record sender {
  point = record point {
    seq_num_s = 106;
    acks = record { seq_num = 106; flag = 0; size = 2 } ∷ [];
    send_buff = 1 ∷ 2 ∷ 3 ∷ 4 ∷ 5 ∷ 6 ∷ [];
    send_size = 6;
  };
  begun = true;
  window_ptr = 2;
  segment_size = 4;
  segment_send_size = 2;
  send_ptr = 6;
}

abbrev round : Round
round = record { accepted = 1 ∷ 2 ∷ 3 ∷ 4 ∷ 5 ∷ 6 ∷ []; outputs = handed_on; sender = sender_after }

runs : run sender events ≡ some round
unfolding run step send_point send_thread turn_of take_buffer go_on begin send_next after_segment
    advance move_window set_ack in_seq insert_ack
runs = refl

-- The second segment arrives first.
abbrev arrivals : List Reading.Event
arrivals =
    arrives (sent_at 104 (5 ∷ 6 ∷ [])) 2
    ∷ reads 3
    ∷ arrives (sent_at 100 (1 ∷ 2 ∷ 3 ∷ 4 ∷ [])) 4
    ∷ reads 5
    ∷ []

read-prefix_of_written_example :
    let start : Receiver = record { seq_num_r = 100; segs = []; segs_aux = [] } in
    (k : ℕ) × (k ≤ 6)
    × ((Reading.run start arrivals).0 ++ content (Reading.run start arrivals).1.segs
        ≡ take k (1 ∷ 2 ∷ 3 ∷ 4 ∷ 5 ∷ 6 ∷ []))
read-prefix_of_written_example =
    read-prefix_of_written 4 100 sender events round arrivals (omega arith) (omega arith)
      (record {
        width = refl;
        waits = refl;
        fresh = refl;
        empty = refl;
        at_start = refl;
        none_awaited = refl;
        numbered = refl;
      })
      (omega arith) runs (inr (inl refl), (inl refl, tt))

-- The window reaches from 4294967293 over the greatest number to 1.
abbrev at_the_end : ServicePoint
at_the_end = record point { seq_num_r = 4294967293; prev_seq_num_r = 4294967289; end_seq_num_r = 1 }

judge_wrapped_example : judge at_the_end 1 ≡ again
judge_wrapped_example =
    judge_wrapped at_the_end 1 (omega arith) (omega arith) (omega arith) (omega arith) refl refl
      (omega arith) (omega arith)

-- Two bytes of number 100.
abbrev two_bytes : Sender
two_bytes = record sender {
  left = 2;
  segment_send_size = 4;
  point = record point { send_buff = 5 ∷ 6 ∷ []; send_size = 2 };
}

behind-eq_awaited_example :
    let recv : Received = record {
      segment = next_segment two_bytes raw;
      size = cut_size two_bytes + transport_header_size;
      src = 3;
    } in
    (behind recv ≡ (after_segment two_bytes).point.seq_num_s) ↔ (100 + cut_size two_bytes < 2 ^ 32)
behind-eq_awaited_example = behind-eq_awaited two_bytes raw 3 (omega arith) (omega arith)

abbrev closed : ServicePoint
closed = record point { flag_con = 0 }

connect_point-Opens_example : Opens closed closed 3 5 2 1 1024 77 4294967295 raw raw raw
connect_point-Opens_example =
    connect_point-Opens closed closed 3 5 2 1 1024 77 4294967295 raw raw raw refl refl refl refl
      (omega arith) (omega arith)
