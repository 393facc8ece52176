-- ===== src/Tests/Transport.antt =====
-- Examples for transport_layer/.
use network_layer_full.Base.{
  ℕ, ◌+◌, ◌%◌, ◌≤◌, ◌≡◌, refl, true, false, some, List, [], ◌∷◌, ◌++◌, take, arith,
}
use network_layer_full.Transport.Segment.{Segment, max_seq_num}
use network_layer_full.Transport.Segment.{buildsendsegment}
use network_layer_full.Transport.Segs.{
  Entry, is_next, insert_seg, recv_seg, Receiver, arrive, read, drain, move,
}
use network_layer_full.Transport.Segs.Stream.{content, IsPiece}
use network_layer_full.Transport.Segs.Reading.{Event, arrives, reads, run, run-prefix}
use network_layer_full.Transport.Acks.{Ack}
use network_layer_full.Transport.Point.{ServicePoint, sent_once}
use network_layer_full.Transport.Wire.{seg_send_thread}
use network_layer_full.Transport.Wire.Repeat.{seg_send_thread-gives_up}

abbrev segment : ℕ → List ℕ → Segment
segment seq_num payload = record {
  src = 1;
  dest = 2;
  seq_num = seq_num;
  ack_num = 0;
  flags = 0;
  window_size = 8;
  payload = payload;
  checksum = 0;
}

-- The stream ends right below the greatest number.
abbrev last_number : ℕ
last_number = 4294967291

abbrev stream : List ℕ
stream = 10 ∷ 20 ∷ 30 ∷ []

-- The second piece arrives first, and the first one twice.
abbrev events : List Event
events =
    arrives (segment 4294967292 (20 ∷ 30 ∷ [])) 2
    ∷ reads 4
    ∷ arrives (segment last_number (10 ∷ [])) 1
    ∷ reads 2
    ∷ arrives (segment last_number (10 ∷ [])) 1
    ∷ []

abbrev start : Receiver
start = record { seq_num_r = last_number; segs = []; segs_aux = [] }

abbrev first_piece :
    IsPiece stream last_number (record { segm = segment last_number (10 ∷ []); size = 1 })
first_piece = record { at = 0; numbered = refl; inside = omega arith; same = refl }

abbrev second_piece :
    IsPiece stream last_number (record { segm = segment 4294967292 (20 ∷ 30 ∷ []); size = 2 })
second_piece = record { at = 1; numbered = refl; inside = omega arith; same = refl }

run-prefix_example :
    (k : ℕ) × (k ≤ 3)
    × ((run start events).0 ++ content (run start events).1.segs ≡ take k stream)
    × ((run start events).1.seq_num_r ≡ (last_number + k) % max_seq_num)
run-prefix_example =
    run-prefix stream last_number events (omega arith)
      (second_piece, (first_piece, (first_piece, tt)))

-- The application has then read the first two bytes.
two_read : (run start events).0 ≡ 10 ∷ 20 ∷ []
unfolding run arrive read insert_seg drain move is_next recv_seg
two_read = refl

abbrev held : Entry
held = record { segm = segment 4294967292 (20 ∷ 30 ∷ []); size = 2 }

abbrev two_acks : List Ack
two_acks =
    record { seq_num = 5; flag = 1; size = 4 } ∷ record { seq_num = 9; flag = 0; size = 4 } ∷ []

-- The only acknowledgement that is awaited is that of the segment below, whose bytes end right
-- below the greatest number, which stands for 0.
abbrev waiting : ServicePoint
waiting = record {
  dest = 3;
  dest_sp = 0;
  window_size = 8;
  flag_con = 2;
  con_held = false;
  seq_num_s = 0;
  prev_seq_num_s = 0;
  end_seq_num_s = 0;
  seq_num_r = 0;
  prev_seq_num_r = 0;
  end_seq_num_r = 0;
  acks = record { seq_num = 0; flag = 0; size = 2 } ∷ [];
  segs = [];
  segs_aux = [];
  send_buff = [];
  send_size = 0;
  buffer_full = false;
}

abbrev last_segment : Segment
last_segment = segment 4294967293 (20 ∷ 30 ∷ [])

seg_send_thread-gives_up_example :
    seg_send_thread last_segment 2 (some waiting) (some waiting ∷ some waiting ∷ [])
    ≡ (sent_once 3 (buildsendsegment last_segment 2).1 ∷ [], true)
seg_send_thread-gives_up_example =
    seg_send_thread-gives_up last_segment 2 waiting waiting (some waiting ∷ []) (omega arith, tt)
      refl
