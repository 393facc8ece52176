-- ===== src/Transport/Connect.antt =====
-- Opening and closing connections: `connect_point`, `close_conn`, `sync_thread`,
-- `sync_ack_thread` and `close_conn_aux` of transport_layer/transport_layer.c. `raw` is the memory
-- of a new segment before its fields are set, `random` the result of `rand`.
pub mod Handshake
use network_layer_full.Base.{
  ℕ, ◌+◌, ◌-◌, ◌%◌, ◌^◌, Bool, true, false, List, [], ◌∷◌, ◌++◌, if◌then◌else◌, ◌==◌, u16, u32,
  sub_size,
}
use network_layer_full.Transport.Segment.{
  Segment, max_seq_num, transport_header_size, buildsendsegment,
}
use network_layer_full.Transport.Acks.{Ack, insert_ack, set_ack}
use network_layer_full.Transport.Point.{
  ServicePoint, Output, spawned, sent_once, Call, done, blocked, next_seq, window_start, window_end,
}

-- The letters that go as payload of SYNC and FIN segments.
abbrev pub letter_s : ℕ
letter_s = 115

abbrev pub letter_f : ℕ
letter_f = 102

abbrev pub awaited : ℕ → ℕ → Ack
awaited seq_num size = record { seq_num = seq_num; flag = 0; size = size }

-- With flag_con 0: the point becomes connecting and a SYNC goes out. `window_size` is a `size_t`.
unfoldable pub start_connect : ServicePoint → ℕ → ℕ → ℕ → ℕ → ℕ → Segment → Call ℕ
start_connect p point dest dest_point window_size random raw =
    let num_seq = (random % max_seq_num + window_size) % 2 ^ 64 % max_seq_num in
    let seq_num_s = next_seq num_seq in
    let seg : Segment = record raw {
      src = point;
      dest = dest_point;
      seq_num = num_seq;
      flags = 1;
      window_size = u16 window_size;
      payload = letter_s ∷ [];
    } in
    done 1
      (record p {
        dest = dest;
        dest_sp = dest_point;
        window_size = u16 window_size;
        flag_con = 1;
        seq_num_s = seq_num_s;
        prev_seq_num_s = window_start seq_num_s (u32 window_size);
        end_seq_num_s = window_end seq_num_s (u32 window_size);
        acks = insert_ack p.acks (awaited seq_num_s 0);
      })
      (spawned seg 1 ∷ [])

-- For a service point that is allocated; the return value is 1 for a connection attempt.
unfoldable pub connect_point : ServicePoint → ℕ → ℕ → ℕ → ℕ → ℕ → Segment → Call ℕ
unfolding start_connect
connect_point p point dest dest_point window_size random raw =
    if p.con_held
    then blocked
    else (if p.flag_con == 0
        then start_connect p point dest dest_point window_size random raw
        else done 0 p [])

-- The FIN segment, and the point that waits for its acknowledgement.
unfoldable pub fin_segment : ServicePoint → ℕ → Segment → Segment
fin_segment p point raw = record raw {
  src = point;
  dest = p.dest_sp;
  seq_num = p.seq_num_s;
  flags = 4;
  window_size = p.window_size;
  payload = letter_f ∷ [];
}

unfoldable pub await_fin : ServicePoint → ServicePoint
await_fin p = record p {
  seq_num_s = next_seq p.seq_num_s;
  acks = insert_ack p.acks (awaited (next_seq p.seq_num_s) 1);
}

unfoldable pub close_conn : ServicePoint → ℕ → Segment → Call (Unit {0})
unfolding fin_segment await_fin
close_conn p point raw =
    if p.con_held
    then blocked
    else (if p.flag_con == 2
        then done tt (record (await_fin p) { flag_con = 3 })
            (spawned (fin_segment p point raw) 1 ∷ [])
        else done tt p [])

-- `recv_segment_t`: a segment, its whole size and the host it came from.
pub record Received : Type 0 where
  pub segment : Segment
  pub size : ℕ
  pub src : ℕ

-- A SYNC for the service point `p`.
unfoldable pub sync_thread : ServicePoint → Received → ℕ → Segment → Call (Unit {0})
sync_thread p syn random raw =
    let w = syn.segment.window_size in
    let seq = syn.segment.seq_num in
    let sq = (random % max_seq_num + w) % max_seq_num in
    let seg : Segment = record raw {
      src = syn.segment.dest;
      dest = syn.segment.src;
      seq_num = sq;
      ack_num = next_seq seq;
      flags = 2;
      window_size = w;
      payload = letter_s ∷ [];
    } in
    if p.con_held
    then blocked
    else (if p.flag_con == 0
        then done tt
            (record p {
              dest = syn.src;
              dest_sp = syn.segment.src;
              window_size = w;
              flag_con = 2;
              seq_num_r = next_seq seq;
              prev_seq_num_r = u32 (seq + (max_seq_num - w) % max_seq_num);
              end_seq_num_r = window_end seq w;
              seq_num_s = next_seq sq;
              prev_seq_num_s = window_start sq w;
              end_seq_num_s = window_end sq w;
              acks = insert_ack p.acks (awaited (next_seq sq) 0);
            })
            (spawned seg 1 ∷ [])
        else done tt p [])

-- The segment that acknowledges up to `ack_num`.
unfoldable pub ack_segment : ServicePoint → ℕ → ℕ → ℕ → Segment → Segment
ack_segment p src dest ack_num raw = record raw {
  src = src;
  dest = dest;
  ack_num = ack_num;
  flags = 3;
  window_size = p.window_size;
}

unfoldable pub send_ack : ServicePoint → ℕ → ℕ → ℕ → Segment → Output
unfolding ack_segment
send_ack p src dest ack_num raw =
    sent_once p.dest (buildsendsegment (ack_segment p src dest ack_num raw) 0).1

-- A SYNC+ACK.
unfoldable pub sync_ack_thread : ServicePoint → Received → Segment → Call (Unit {0})
unfolding send_ack
sync_ack_thread p syn raw =
    let w = syn.segment.window_size in
    let seq = syn.segment.seq_num in
    if p.con_held
    then blocked
    else (if p.flag_con == 1
        then done tt
            (record p {
              flag_con = 2;
              acks = set_ack p.acks syn.segment.ack_num;
              seq_num_r = next_seq seq;
              prev_seq_num_r = window_start seq w;
              end_seq_num_r = window_end seq w;
            })
            (send_ack p syn.segment.dest syn.segment.src (next_seq seq) raw ∷ [])
        else done tt p [])

-- What acknowledges the segment: the number behind its payload.
abbrev pub behind : Received → ℕ
behind recv =
    (recv.segment.seq_num + sub_size recv.size transport_header_size) % 2 ^ 64 % max_seq_num

-- A FIN: answered by an ACK, and in an open connection by a FIN too.
unfoldable pub close_conn_aux :
    ServicePoint → ℕ → Received → Segment → Segment → ServicePoint × List Output
unfolding send_ack fin_segment await_fin
close_conn_aux p point recv raw raw_fin =
    let ack = send_ack p point p.dest_sp (behind recv) raw in
    if p.flag_con == 2
    then (record (await_fin p) { flag_con = 0 }, ack ∷ spawned (fin_segment p point raw_fin) 1 ∷ [])
    else (if p.flag_con == 3 then (record p { flag_con = 0 }, ack ∷ []) else (p, []))
