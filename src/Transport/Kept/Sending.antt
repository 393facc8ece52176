-- ===== src/Transport/Kept/Sending.antt =====
-- What the sending thread keeps of a service point: `send_thread` of
-- transport_layer/transport_layer.c.
use network_layer_full.Base.{
  ◌+◌, ◌<◌, inl, inr, Bool, Bool-cases, true, false, Option, none, some, List, [], ◌∷◌, arith, ◌==◌,
  ◌-◌, ltb, All, u16, sub_size, if◌then◌else◌,
}
use network_layer_full.Transport.Acks.{Ack, in_seq}
use network_layer_full.Transport.Kept.{IsPoint, insert_ack-numbers}
use network_layer_full.Transport.Point.{Output}
use network_layer_full.Transport.Segment.{Segment, max_seq_num}
use network_layer_full.Transport.Sender.{
  Sender, Phase, idle, sending, full, go_on, begin, take_buffer, after_segment, advance, send_next,
  move_window, turn_of, send_thread, cut_size,
}

in_seq-numbers :
    (acks : List Ack)
    → All (λ (a : Ack). a.seq_num < max_seq_num) acks
    → All (λ (a : Ack). a.seq_num < max_seq_num) (in_seq acks).1
unfolding in_seq
in_seq-numbers [] h = tt
in_seq-numbers (a ∷ acks) h = elim (Bool-cases (a.flag == 0)) [
  | inl e ↦ rw e h
  | inr e ↦ rw e (in_seq-numbers acks h.1)
]

-- The point of a sender, and of a turn that ends.
abbrev Good : Sender → Type 0
Good s = IsPoint s.point

abbrev pub GoodTurn : Option (List Output × Sender) → Type 0
GoodTurn none = Unit
GoodTurn (some (out, s)) = IsPoint s.point

if-Good : (b : Bool) (x y : Sender) → Good x → Good y → Good (if b then x else y)
if-Good true x y left right = left
if-Good false x y left right = right

go_on-Good : (s : Sender) → Good s → Good (go_on s)
unfolding go_on
go_on-Good s v = if-Good (s.left == 0) _ _ (record { state = v.state; numbers = v.numbers }) v

begin-Good : (s : Sender) → Good s → Good (begin s)
unfolding begin
begin-Good s v = if-Good s.begun _ _ v v

take_buffer-Good : (s : Sender) → Good s → Good (take_buffer s)
unfolding take_buffer
take_buffer-Good s v =
    go_on-Good (record (begin s) { send_ptr = 0; left = s.point.send_size }) (begin-Good s v)

after_segment-Good : (s : Sender) → Good s → Good (after_segment s)
unfolding after_segment
after_segment-Good s v = record {
  state = v.state;
  numbers = insert_ack-numbers s.point.acks _ (cut_size s) v.numbers (omega arith);
}

advance-Good : (s : Sender) → Good s → Good (advance s)
unfolding advance
advance-Good s v =
    let room =
      if ltb s.point.window_size (s.window_ptr + s.segment_size)
      then s.point.window_size - s.window_ptr
      else s.segment_size in
    if-Good (s.window_ptr == 0) _ _ v (go_on-Good (record s { segment_send_size = room }) v)

move_window-Good : (s : Sender) → Good s → Good (move_window s)
unfolding move_window
move_window-Good s v =
    let v' : IsPoint (record (s.point) { acks = (in_seq s.point.acks).1 }) = record {
      state = v.state;
      numbers = in_seq-numbers s.point.acks v.numbers;
    } in
    let size_move = (in_seq s.point.acks).0 in
    let moved : Sender = record s {
      point = record (s.point) { acks = (in_seq s.point.acks).1 };
      window_ptr = u16 (sub_size s.point.window_size size_move);
      segment_send_size = if ltb s.segment_size size_move then s.segment_size else u16 size_move;
    } in
    if-Good (size_move == 0) _ _ v' (go_on-Good moved v')

send_next-GoodTurn : (s : Sender) (raw : Segment) → Good s → GoodTurn (send_next s raw)
unfolding send_next
send_next-GoodTurn s raw v = elim (Bool-cases (s.point.window_size == 0)) [
  | inl empty ↦ rw empty tt
  | inr window ↦ rw window (advance-Good (after_segment s) (after_segment-Good s v))
]

turn_of-GoodTurn :
    (s : Sender) (raw : Segment) (phase : Phase) → Good s → GoodTurn (turn_of s raw phase)
unfolding turn_of
turn_of-GoodTurn s raw idle v = if-Good s.point.buffer_full _ _ (take_buffer-Good s v) v
turn_of-GoodTurn s raw sending v = send_next-GoodTurn s raw v
turn_of-GoodTurn s raw full v = move_window-Good s v

pub send_thread-GoodTurn :
    (s : Sender) (raw : Segment) → IsPoint s.point → GoodTurn (send_thread s raw)
unfolding send_thread
send_thread-GoodTurn s raw v = turn_of-GoodTurn s raw s.phase v
