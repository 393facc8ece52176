-- ===== src/Transport/Sender.antt =====
-- `send_point` and `send_thread` of transport_layer/transport_layer.c: a stream of bytes is cut into
-- segments, and no more of them are on their way than the window allows.
pub mod Run
pub mod Flow
pub mod Window
pub mod Pieces
pub mod Giving
pub mod Rounds
pub mod EndToEnd
use network_layer_full.Base.{
  ℕ, ◌+◌, ◌-◌, ◌%◌, ◌^◌, min, Bool, true, false, Option, none, some, List, [], ◌∷◌, if◌then◌else◌,
  ltb, leb, ◌==◌, take, drop, u16, u32, sub_size,
}
use network_layer_full.Transport.Segment.{Segment, max_seq_num, transport_header_size}
use network_layer_full.Transport.Acks.{Ack, insert_ack, in_seq}
use network_layer_full.Transport.Point.{ServicePoint, Output, spawned, Call, done, blocked}
use network_layer_full.Transport.Connect.{awaited}

-- MAX_SEGMENT_SIZE
abbrev pub max_segment_size : ℕ
max_segment_size = 512

-- The bytes that a call of `send_point` takes.
abbrev pub taken_size : ℕ → ℕ
taken_size tamanho =
    if ltb (32768 - transport_header_size) tamanho then 32768 - transport_header_size else tamanho

-- For a service point that is allocated. The call waits while the last buffer is not sent.
unfoldable pub send_point : ServicePoint → List ℕ → ℕ → Call ℕ
send_point p buffer tamanho =
    let tam = taken_size tamanho in
    if p.con_held
    then blocked
    else (if p.flag_con == 2
        then (if p.buffer_full
            then blocked
            else done tam
                (record p { send_buff = take tam buffer; send_size = tam; buffer_full = true }) [])
        else done 0 p [])

-- Where the thread is: before a buffer, before a segment, or before a window that is full.
pub data Phase : Type 0 where
  idle sending full : Phase

-- The thread's variables, with the service point `sp`; `left` is its `send_size`, and `begun` its
-- `done`.
pub record Sender : Type 0 where
  pub point : ServicePoint
  pub sp : ℕ
  pub phase : Phase
  pub begun : Bool
  pub window_ptr : ℕ
  pub segment_size : ℕ
  pub segment_send_size : ℕ
  pub send_ptr : ℕ
  pub left : ℕ

-- The test of the inner loop.
unfoldable pub go_on : Sender → Sender
go_on s =
    if s.left == 0
    then record s { phase = idle; point = record (s.point) { buffer_full = false } }
    else record s { phase = sending }

-- At the first buffer the sizes are set.
unfoldable pub begin : Sender → Sender
begin s =
    let n =
      if ltb s.point.window_size max_segment_size then s.point.window_size else max_segment_size in
    if s.begun then s else record s { begun = true; segment_size = n; segment_send_size = n }

unfoldable pub take_buffer : Sender → Sender
unfolding go_on begin
take_buffer s = go_on (record (begin s) { send_ptr = 0; left = s.point.send_size })

-- The size of the next segment.
abbrev pub cut_size : Sender → ℕ
cut_size s = if ltb s.left s.segment_send_size then s.left else s.segment_send_size

abbrev pub next_segment : Sender → Segment → Segment
next_segment s raw = record raw {
  src = s.sp;
  dest = s.point.dest_sp;
  seq_num = s.point.seq_num_s;
  flags = 0;
  window_size = s.point.window_size;
  payload = take (cut_size s) (drop s.send_ptr s.point.send_buff);
}

-- The segment goes out, and its acknowledgement is awaited.
unfoldable pub after_segment : Sender → Sender
after_segment s =
    let n = cut_size s in
    let seq_num_s = u32 (s.point.seq_num_s + n) % max_seq_num in
    record s {
      point = record (s.point) {
        seq_num_s = seq_num_s;
        acks = insert_ack s.point.acks (awaited seq_num_s n);
      };
      send_ptr = s.send_ptr + n;
      left = if ltb s.left s.segment_send_size then 0 else s.left - s.segment_send_size;
      window_ptr = (s.window_ptr + n) % s.point.window_size;
    }

-- Behind a segment: the window is full, or the next segment is sized.
unfoldable pub advance : Sender → Sender
unfolding go_on
advance s =
    let room =
      if ltb s.point.window_size (s.window_ptr + s.segment_size)
      then s.point.window_size - s.window_ptr
      else s.segment_size in
    if s.window_ptr == 0
    then record s { phase = full }
    else go_on (record s { segment_send_size = room })

-- `none` is the division by a window of size 0.
unfoldable pub send_next : Sender → Segment → Option (List Output × Sender)
unfolding after_segment advance
send_next s raw =
    if s.point.window_size == 0
    then none
    else some (spawned (next_segment s raw) (cut_size s) ∷ [], advance (after_segment s))

-- A look at the acknowledgements while the window is full.
unfoldable pub move_window : Sender → Sender
unfolding go_on
move_window s =
    let (size_move, acks) = in_seq s.point.acks in
    let s' = record s { point = record (s.point) { acks = acks } } in
    if size_move == 0
    then s'
    else go_on (record s' {
      window_ptr = u16 (sub_size s.point.window_size size_move);
      segment_send_size = if ltb s.segment_size size_move then s.segment_size else u16 size_move;
    })

-- One turn of the thread. Before a buffer, it waits for `send_point`.
unfoldable pub turn_of : Sender → Segment → Phase → Option (List Output × Sender)
unfolding take_buffer send_next move_window
turn_of s raw idle = some ([], if s.point.buffer_full then take_buffer s else s)
turn_of s raw sending = send_next s raw
turn_of s raw full = some ([], move_window s)

unfoldable pub send_thread : Sender → Segment → Option (List Output × Sender)
unfolding turn_of
send_thread s raw = turn_of s raw s.phase
