-- ===== src/Transport/Sender/Window.antt =====
-- No more bytes are on their way than the window has.
use network_layer_full.Base.{
  ℕ, ◌^◌, ◌≤◌, ◌<◌, ◌≡◌, inl, inr, refl, ◌∙◌, Bool, true, false, Bool-cases, some, List, [], ◌∷◌,
  ◌++◌, arith, ◌==◌, ne→not_==, length,
}
use network_layer_full.Transport.Segment.{Segment}
use network_layer_full.Transport.Acks.{set_ack}
use network_layer_full.Transport.Acks.Laws.{total}
use network_layer_full.Transport.Point.{ServicePoint, spawned, Call, done, blocked, fault}
use network_layer_full.Transport.Sender.Run.{
  Event, gives, turns, hears, Round, given, turned, step, run,
}
use network_layer_full.Transport.Sender.{
  send_point, Phase, idle, sending, full, Sender, take_buffer, cut_size, next_segment,
  after_segment, advance, send_next, move_window, turn_of, send_thread,
}
use network_layer_full.Transport.Sender.Flow.{
  total-set_ack, Flows, IsFlowing, take_buffer-IsFlowing, send_next-IsFlowing,
  move_window-IsFlowing,
}

turn_of-IsFlowing :
    (W : ℕ) (s : Sender) (raw : Segment) (phase : Phase)
    → 0 < W
    → W < 2 ^ 16
    → IsFlowing W s
    → s.phase ≡ phase
    → (r : Round) × (turned (turn_of s raw phase) ≡ some r) × IsFlowing W r.sender
unfolding turn_of turned
turn_of-IsFlowing W s raw idle pos small v e = elim (Bool-cases s.point.buffer_full) [
  | inl ready ↦
      let r : Round = record { accepted = []; outputs = []; sender = take_buffer s } in
      (r, rw ready refl, take_buffer-IsFlowing W s pos v e)
  | inr wait ↦
      let r : Round = record { accepted = []; outputs = []; sender = s } in (r, rw wait refl, v)
]
turn_of-IsFlowing W s raw sending pos small v e =
    let r : Round = record {
      accepted = [];
      outputs = spawned (next_segment s raw) (cut_size s) ∷ [];
      sender = advance (after_segment s);
    } in
    let wide : (s.point.window_size == 0) ≡ false =
      ne→not_== s.point.window_size 0 (omega (arith, v.width)) in
    (r, unfold send_next in rw wide refl, send_next-IsFlowing W s pos v e)
turn_of-IsFlowing W s raw full pos small v e =
    let r : Round = record { accepted = []; outputs = []; sender = move_window s } in
    (r, refl, move_window-IsFlowing W s pos small v e)

-- A call of `send_point` touches neither the window nor the acknowledgements.
abbrev Alike : ServicePoint → Call ℕ → Type 0
Alike p blocked = Unit
Alike p fault = Unit
Alike p (done n p' outputs) = (p'.window_size ≡ p.window_size) × (p'.acks ≡ p.acks)

send_point-Alike : (p : ServicePoint) (bytes : List ℕ) (n : ℕ) → Alike p (send_point p bytes n)
unfolding send_point
send_point-Alike p bytes n = elim (Bool-cases p.con_held) [
  | inl held ↦ rw held tt
  | inr free ↦ elim (Bool-cases (p.flag_con == 2)) [
    | inl open' ↦ elim (Bool-cases p.buffer_full) [
      | inl busy ↦ rw (free, open', busy) tt
      | inr ready ↦ rw (free, open', ready) (refl, refl)
    ]
    | inr shut ↦ rw (free, shut) (refl, refl)
  ]
]

given-IsFlowing :
    (W : ℕ) (s : Sender) (bytes : List ℕ) (c : Call ℕ)
    → IsFlowing W s
    → Alike s.point c
    → IsFlowing W (given s bytes c).sender
unfolding given
given-IsFlowing W s bytes blocked v h = v
given-IsFlowing W s bytes fault v h = v
given-IsFlowing W s bytes (done n p outputs) v h = record {
  width = h.0 ∙ v.width;
  flows = rw h.1 v.flows;
}

pub step-IsFlowing :
    (W : ℕ) (s : Sender) (e : Event)
    → 0 < W
    → W < 2 ^ 16
    → IsFlowing W s
    → (r : Round) × (step s e ≡ some r) × IsFlowing W r.sender
unfolding step send_thread
step-IsFlowing W s (gives bytes) pos small v = (
  given s bytes (send_point s.point bytes (length bytes)),
  refl,
  given-IsFlowing W s bytes (send_point s.point bytes (length bytes)) v
      (send_point-Alike s.point bytes (length bytes)),
)
step-IsFlowing W s (turns raw) pos small v = turn_of-IsFlowing W s raw s.phase pos small v refl
step-IsFlowing W s (hears num) pos small v =
    let s' = record s { point = record (s.point) { acks = set_ack s.point.acks num } } in
    let r : Round = record { accepted = []; outputs = []; sender = s' } in
    (r, refl, record { width = v.width; flows = rw (total-set_ack s.point.acks num) v.flows })

run-IsFlowing :
    (W : ℕ) (s : Sender) (events : List Event)
    → 0 < W
    → W < 2 ^ 16
    → IsFlowing W s
    → (r : Round) × (run s events ≡ some r) × IsFlowing W r.sender
unfolding run
run-IsFlowing W s [] pos small v =
    let r : Round = record { accepted = []; outputs = []; sender = s } in (r, refl, v)
run-IsFlowing W s (e ∷ es) pos small v =
    let now = step-IsFlowing W s e pos small v in
    let later = run-IsFlowing W now.0.sender es pos small now.2 in
    let r : Round = record {
      accepted = now.0.accepted ++ later.0.accepted;
      outputs = now.0.outputs ++ later.0.outputs;
      sender = later.0.sender;
    } in
    (r, rw (now.1, later.1) refl, later.2)

total-IsFlowing : (W : ℕ) (s : Sender) → IsFlowing W s → total s.point.acks ≤ W
total-IsFlowing W s v = bounded s.phase s.begun v.flows
  where
    bounded :
        (phase : Phase) (begun : Bool)
        → Flows W phase begun s.window_ptr
            (total s.point.acks)
            s.segment_size
            s.segment_send_size
            s.left
        → total s.point.acks ≤ W
    bounded full begun f = omega arith
    bounded sending begun f = omega arith
    bounded idle true f = omega arith
    bounded idle false f = omega arith

-- A sender that has not begun, with a window of `W` bytes, `W` positive, and no bytes awaited:
-- whatever the application hands over, however often the thread gets a turn and whatever
-- acknowledgements arrive, the thread does not fail, and the bytes whose acknowledgement the
-- window waits for are never more than `W`.
pub run-window :
    (W : ℕ) (s : Sender) (events : List Event)
    → 0 < W
    → W < 2 ^ 16
    → s.point.window_size ≡ W
    → s.phase ≡ idle
    → s.begun ≡ false
    → s.window_ptr ≡ 0
    → total s.point.acks ≡ 0
    → (r : Round) × (run s events ≡ some r) × (total r.sender.point.acks ≤ W)
run-window W s events pos small ew ei eb ep et =
    let v : IsFlowing W s = record { width = ew; flows = rw (ei, eb) (et, ep) } in
    let out = run-IsFlowing W s events pos small v in
    (out.0, out.1, total-IsFlowing W out.0.sender out.2)
