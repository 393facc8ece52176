-- ===== src/Transport/Sender/Flow.antt =====
-- Each action of the thread keeps the bytes on their way within the window.
use network_layer_full.Base.{
  ℕ, ◌+◌, ◌-◌, ◌%◌, ◌^◌, ◌≤◌, ◌<◌, ◌≡◌, ◌≢◌, ◌⊎◌, inl, inr, refl, ap, min, Bool, true, false,
  Bool-cases, List, [], ◌∷◌, arith, if◌then◌else◌, ltb, ◌==◌, eq→==, ne→not_==, size_mod, u16, u32,
  sub_size,
}
use native.Mathlib.Decide.{ℕ_discrete}
use native.Mathlib.Nat.{mod_self, mod-eq_of_lt}
use network_layer_full.Transport.Segment.{max_seq_num}
use network_layer_full.Transport.Connect.{awaited}
use network_layer_full.Transport.Acks.{Ack, insert_ack, set_ack, in_seq}
use network_layer_full.Transport.Acks.Laws.{total, in_seq_lem, total-append}
use network_layer_full.Transport.Sender.{
  max_segment_size, Phase, idle, sending, full, Sender, go_on, begin, take_buffer, cut_size,
  after_segment, advance, move_window,
}

pub total-set_ack : (acks : List Ack) (num : ℕ) → total (set_ack acks num) ≡ total acks
unfolding set_ack
total-set_ack [] num = refl
total-set_ack (a ∷ as') num = ground (arith, total-set_ack as' num)

pub total-insert_ack : (acks : List Ack) (a : Ack) → total (insert_ack acks a) ≡ total acks + a.size
unfolding insert_ack
total-insert_ack acks a = omega (arith, total-append acks (a ∷ []))

pub total-in_seq :
    (acks : List Ack) → total acks < size_mod → (in_seq acks).0 + total (in_seq acks).1 ≡ total acks
total-in_seq acks small =
    let out = in_seq_lem acks small in
    omega (arith, ap total out.1, total-append out.0 (in_seq acks).1, out.3)

-- The bytes on their way, by the state of the thread. Before a segment its size fits the window.
abbrev pub Flows : ℕ → Phase → Bool → ℕ → ℕ → ℕ → ℕ → ℕ → Type 0
Flows W full begun ptr bytes size next left =
    (begun ≡ true) × (ptr ≡ 0) × (bytes ≡ W) × (size ≡ min W max_segment_size)
Flows W sending begun ptr bytes size next left =
    (begun ≡ true)
    × (bytes ≡ ptr)
    × (size ≡ min W max_segment_size)
    × (0 < next)
    × (ptr + next ≤ W)
    × (0 < left)
Flows W idle true ptr bytes size next left =
    (bytes ≡ ptr) × (size ≡ min W max_segment_size) × (0 < next) × (ptr + next ≤ W)
Flows W idle false ptr bytes size next left = (bytes ≡ 0) × (ptr ≡ 0)

pub record IsFlowing (W : ℕ) (s : Sender) : Type 0 where
  pub width : s.point.window_size ≡ W
  pub flows :
      Flows W s.phase s.begun s.window_ptr
        (total s.point.acks)
        s.segment_size
        s.segment_send_size
        s.left

-- The inner loop's test, where the sizes are set.
pub go_on-IsFlowing :
    (W : ℕ) (s : Sender)
    → s.point.window_size ≡ W
    → s.begun ≡ true
    → total s.point.acks ≡ s.window_ptr
    → s.segment_size ≡ min W max_segment_size
    → 0 < s.segment_send_size
    → s.window_ptr + s.segment_send_size ≤ W
    → IsFlowing W (go_on s)
unfolding go_on
go_on-IsFlowing W s ew eb et es pos fits = elim (Bool-cases (s.left == 0)) [
  | inl stop ↦ rw stop (record { width = ew; flows = rw eb (et, es, pos, fits) })
  | inr on ↦ rw on (record { width = ew; flows = (eb, et, es, pos, fits, ground arith) })
]

-- What the sizes are when a buffer is begun.
abbrev pub Ready : ℕ → Sender → Type 0
Ready W t =
    (t.point.window_size ≡ W)
    × (t.begun ≡ true)
    × (total t.point.acks ≡ t.window_ptr)
    × (t.segment_size ≡ min W max_segment_size)
    × (0 < t.segment_send_size)
    × (t.window_ptr + t.segment_send_size ≤ W)

pub begin-Ready : (W : ℕ) (s : Sender) → 0 < W → IsFlowing W s → s.phase ≡ idle → Ready W (begin s)
unfolding begin
begin-Ready W s pos v e = elim (Bool-cases s.begun) [
  | inl on ↦
      let f : Flows W idle true s.window_ptr (total s.point.acks) s.segment_size s.segment_send_size
          s.left =
        rw (e, on) at v.flows in
      rw on (v.width, refl, f.0, f.1, f.2, f.3)
  | inr off ↦
      let f : Flows W idle false s.window_ptr (total s.point.acks) s.segment_size
          s.segment_send_size s.left =
        rw (e, off) at v.flows in
      let n =
        if ltb s.point.window_size max_segment_size
        then s.point.window_size
        else max_segment_size in
      let small : n ≡ min W max_segment_size = ground (arith, v.width) in
      rw off (v.width, refl, omega arith, small, omega arith, omega arith)
]

pub take_buffer-IsFlowing :
    (W : ℕ) (s : Sender) → 0 < W → IsFlowing W s → s.phase ≡ idle → IsFlowing W (take_buffer s)
unfolding take_buffer
take_buffer-IsFlowing W s pos v e =
    let r = begin-Ready W s pos v e in
    go_on-IsFlowing W (record (begin s) { send_ptr = 0; left = s.point.send_size }) r.0 r.1 r.2 r.3
      r.4 r.5

-- The next segment is not empty and not longer than the window has room for.
pub cut_size_bounds :
    (s : Sender)
    → 0 < s.left
    → 0 < s.segment_send_size
    → (0 < cut_size s) × (cut_size s ≤ s.segment_send_size) × (cut_size s ≤ s.left)
cut_size_bounds s l n = ground arith

pub advance-IsFlowing :
    (W : ℕ) (s : Sender)
    → s.point.window_size ≡ W
    → s.begun ≡ true
    → 0 < W
    → s.segment_size ≡ min W max_segment_size
    → ((s.window_ptr ≡ 0) × (total s.point.acks ≡ W))
      ⊎ ((0 < s.window_ptr) × (s.window_ptr < W) × (total s.point.acks ≡ s.window_ptr))
    → IsFlowing W (advance s)
unfolding advance
advance-IsFlowing W s ew eb pos es (inl z) =
    rw (eq→== s.window_ptr 0 z.0) (record { width = ew; flows = (eb, z.0, z.1, es) })
advance-IsFlowing W s ew eb pos es (inr p) =
    let room =
      if ltb s.point.window_size (s.window_ptr + s.segment_size)
      then s.point.window_size - s.window_ptr
      else s.segment_size in
    let fits : (0 < room) × (s.window_ptr + room ≤ W) = ground (arith, ew) in
    rw (ne→not_== s.window_ptr 0 (omega arith))
      (go_on-IsFlowing W (record s { segment_send_size = room }) ew eb p.2 es fits.0 fits.1)

pub send_next-IsFlowing :
    (W : ℕ) (s : Sender)
    → 0 < W
    → IsFlowing W s
    → s.phase ≡ sending
    → IsFlowing W (advance (after_segment s))
unfolding after_segment
send_next-IsFlowing W s pos v e =
    let f : Flows W sending s.begun s.window_ptr (total s.point.acks) s.segment_size
        s.segment_send_size s.left =
      rw e at v.flows in
    let n = cut_size_bounds s f.5 f.3 in
    let grown =
      total-insert_ack s.point.acks
        (awaited (u32 (s.point.seq_num_s + cut_size s) % max_seq_num) (cut_size s)) in
    advance-IsFlowing W (after_segment s) v.width f.0 pos f.2
      (elim (ℕ_discrete (s.window_ptr + cut_size s) W) [
        | yes all ↦ inl (rw (v.width, all) (mod_self W), omega arith)
        | no part ↦
            let lt : s.window_ptr + cut_size s < W = omega arith in
            let same : (s.window_ptr + cut_size s) % s.point.window_size
                ≡ s.window_ptr + cut_size s =
              rw v.width (mod-eq_of_lt lt) in
            inr (omega arith, omega arith, omega arith)
      ])

pub move_window-IsFlowing :
    (W : ℕ) (s : Sender)
    → 0 < W
    → W < 2 ^ 16
    → IsFlowing W s
    → s.phase ≡ full
    → IsFlowing W (move_window s)
unfolding move_window
move_window-IsFlowing W s pos small v e =
    let f : Flows W full s.begun s.window_ptr (total s.point.acks) s.segment_size
        s.segment_send_size s.left =
      rw e at v.flows in
    let kept = total-in_seq s.point.acks (omega arith) in
    let size_move = (in_seq s.point.acks).0 in
    let s' = record s { point = record (s.point) { acks = (in_seq s.point.acks).1 } } in
    elim (Bool-cases (size_move == 0)) [
      | inl none_new ↦
          let zero_moved : size_move ≡ 0 = ground arith in
          rw none_new (record { width = v.width; flows = rw e (f.0, f.1, omega arith, f.3) })
      | inr some_new ↦
          let moved : size_move ≢ 0 = ground arith in
          let next = if ltb s.segment_size size_move then s.segment_size else u16 size_move in
          let sized : (0 < next) × (next ≤ size_move) = ground arith in
          let ptr : u16 (sub_size s.point.window_size size_move) ≡ W - size_move =
            omega (arith, v.width) in
          rw some_new (
            go_on-IsFlowing W
              (record s' {
                window_ptr = u16 (sub_size s.point.window_size size_move);
                segment_send_size = next;
              })
              v.width f.0 (omega arith) f.3 sized.0 (omega arith))
    ]
