-- ===== src/Transport/Sender/Pieces.antt =====
-- The segments that a sender hands on are pieces of the stream that the application wrote.
use network_layer_full.Base.{
  ℕ, ◌+◌, ◌-◌, ◌≤◌, ◌<◌, ◌≡◌, inl, inr, refl, sym, ap, ◌∙◌, Bool, true, false, Bool-cases, List,
  arith, if◌then◌else◌, ltb, ◌==◌, eq→==, ne→not_==, length, length-take, take, take-all, drop,
  drop-drop, u16, sub_size,
}
use native.Mathlib.Decide.{ℕ_discrete}
use network_layer_full.Transport.Segment.{Segment, max_seq_num}
use network_layer_full.Transport.Segs.Stream.{IsPiece}
use network_layer_full.Transport.Acks.{in_seq}
use network_layer_full.Transport.Point.{ServicePoint, Output, spawned, sent_once}
use network_layer_full.Transport.Sender.{
  Phase, idle, sending, full, Sender, go_on, begin, take_buffer, cut_size, next_segment,
  after_segment, advance, move_window,
}

-- What is left of the stream, from position `at` on: all of it has been sent, a buffer waits for
-- the thread, or the thread is at it.
abbrev pub Owes : List ℕ → ℕ → Phase → Bool → List ℕ → ℕ → ℕ → ℕ → Type 0
Owes stream at idle false buff size ptr left = at ≡ length stream
Owes stream at idle true buff size ptr left = (drop at stream ≡ buff) × (at + size ≡ length stream)
Owes stream at sending buffer_full buff size ptr left =
    (buffer_full ≡ true) × (drop at stream ≡ drop ptr buff) × (at + left ≡ length stream)
Owes stream at full buffer_full buff size ptr left =
    (buffer_full ≡ true) × (drop at stream ≡ drop ptr buff) × (at + left ≡ length stream)

-- The next byte to be sent is number `at` of the stream.
pub record IsSent (first : ℕ) (stream : List ℕ) (s : Sender) : Type 0 where
  pub at : ℕ
  pub numbered : s.point.seq_num_s ≡ first + at
  pub owes :
      Owes stream at s.phase s.point.buffer_full s.point.send_buff s.point.send_size s.send_ptr
        s.left

go_on-IsSent :
    (first : ℕ) (stream : List ℕ) (at : ℕ) (s : Sender)
    → s.point.seq_num_s ≡ first + at
    → s.point.buffer_full ≡ true
    → drop at stream ≡ drop s.send_ptr s.point.send_buff
    → at + s.left ≡ length stream
    → IsSent first stream (go_on s)
unfolding go_on
go_on-IsSent first stream at s en eb ed el = elim (Bool-cases (s.left == 0)) [
  | inl stop ↦
      let over : s.left ≡ 0 = ground arith in
      rw stop (record { at = at; numbered = en; owes = omega arith })
  | inr on ↦ rw on (record { at = at; numbered = en; owes = (eb, ed, el) })
]

begin_lem : (s : Sender) → ((begin s).point ≡ s.point)
unfolding begin
begin_lem s = elim (Bool-cases s.begun) [ inl on ↦ rw on refl | inr off ↦ rw off refl ]

pub take_buffer-IsSent :
    (first : ℕ) (stream : List ℕ) (s : Sender)
    → IsSent first stream s
    → s.phase ≡ idle
    → s.point.buffer_full ≡ true
    → IsSent first stream (take_buffer s)
unfolding take_buffer
take_buffer-IsSent first stream s v ep eb =
    let f : Owes stream v.at idle true s.point.send_buff s.point.send_size s.send_ptr s.left =
      rw (ep, eb) at v.owes in
    let same = begin_lem s in
    go_on-IsSent first stream v.at (record (begin s) { send_ptr = 0; left = s.point.send_size })
      (ap (λ (p : ServicePoint). p.seq_num_s) same ∙ v.numbered)
      (ap (λ (p : ServicePoint). p.buffer_full) same ∙ eb)
      (f.0 ∙ sym (ap (λ (p : ServicePoint). p.send_buff) same)) f.1

-- A segment handed on is a piece of the stream.
abbrev pub PieceOf : List ℕ → ℕ → Output → Type 0
PieceOf stream first (spawned seg size) = IsPiece stream first (record { segm = seg; size = size })
PieceOf stream first (sent_once host bytes) = ⊥

cut_size_lem :
    (s : Sender)
    → (cut_size s ≤ s.left)
      × ((if ltb s.left s.segment_send_size then 0 else s.left - s.segment_send_size)
          ≡ s.left - cut_size s)
cut_size_lem s = (ground arith, ground arith)

take-take {ℓ} : {A : Type ℓ} (n : ℕ) (xs : List A) → take n (take n xs) ≡ take n xs
take-take n xs = take-all n (take n xs) (omega (arith, length-take n xs))

pub send_next-PieceOf :
    (first : ℕ) (stream : List ℕ) (s : Sender) (raw : Segment)
    → first + length stream < max_seq_num
    → IsSent first stream s
    → s.phase ≡ sending
    → PieceOf stream first (spawned (next_segment s raw) (cut_size s))
send_next-PieceOf first stream s raw small v ep =
    let f : Owes stream v.at sending s.point.buffer_full s.point.send_buff s.point.send_size
        s.send_ptr s.left =
      rw ep at v.owes in
    let n = cut_size_lem s in
    record {
      at = v.at;
      numbered = omega (arith, v.numbered);
      inside = omega arith;
      same =
          take-take (cut_size s) (drop s.send_ptr s.point.send_buff)
          ∙ ap (take (cut_size s)) (sym f.1);
    }

advance-IsSent :
    (first : ℕ) (stream : List ℕ) (at : ℕ) (s : Sender)
    → s.point.seq_num_s ≡ first + at
    → s.point.buffer_full ≡ true
    → drop at stream ≡ drop s.send_ptr s.point.send_buff
    → at + s.left ≡ length stream
    → IsSent first stream (advance s)
unfolding advance
advance-IsSent first stream at s en eb ed el = elim (ℕ_discrete s.window_ptr 0) [
  | yes z ↦ rw (eq→== s.window_ptr 0 z) (record { at = at; numbered = en; owes = (eb, ed, el) })
  | no nz ↦
      let room =
        if ltb s.point.window_size (s.window_ptr + s.segment_size)
        then s.point.window_size - s.window_ptr
        else s.segment_size in
      rw (ne→not_== s.window_ptr 0 nz)
        (go_on-IsSent first stream at (record s { segment_send_size = room }) en eb ed el)
]

pub send_next-IsSent :
    (first : ℕ) (stream : List ℕ) (s : Sender)
    → first + length stream < max_seq_num
    → IsSent first stream s
    → s.phase ≡ sending
    → IsSent first stream (advance (after_segment s))
unfolding after_segment
send_next-IsSent first stream s small v ep =
    let f : Owes stream v.at sending s.point.buffer_full s.point.send_buff s.point.send_size
        s.send_ptr s.left =
      rw ep at v.owes in
    let n = cut_size_lem s in
    let further : drop (v.at + cut_size s) stream
        ≡ drop (s.send_ptr + cut_size s) s.point.send_buff =
      sym (drop-drop (cut_size s) v.at stream)
      ∙ ap (drop (cut_size s)) f.1
      ∙ drop-drop (cut_size s) s.send_ptr s.point.send_buff in
    advance-IsSent first stream (v.at + cut_size s) (after_segment s) (omega (arith, v.numbered))
      f.0 further (omega arith)

pub move_window-IsSent :
    (first : ℕ) (stream : List ℕ) (s : Sender)
    → IsSent first stream s
    → s.phase ≡ full
    → IsSent first stream (move_window s)
unfolding move_window
move_window-IsSent first stream s v ep =
    let f : Owes stream v.at full s.point.buffer_full s.point.send_buff s.point.send_size s.send_ptr
        s.left =
      rw ep at v.owes in
    let size_move = (in_seq s.point.acks).0 in
    let s' = record s { point = record (s.point) { acks = (in_seq s.point.acks).1 } } in
    elim (Bool-cases (size_move == 0)) [
      | inl none_new ↦ rw none_new (record { at = v.at; numbered = v.numbered; owes = rw ep f })
      | inr some_new ↦
          let next = if ltb s.segment_size size_move then s.segment_size else u16 size_move in
          rw some_new (
            go_on-IsSent first stream v.at
              (record s' {
                window_ptr = u16 (sub_size s.point.window_size size_move);
                segment_send_size = next;
              })
              v.numbered f.0 f.1 f.2)
    ]
