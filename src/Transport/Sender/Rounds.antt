-- ===== src/Transport/Sender/Rounds.antt =====
-- What the turns of the thread do to the stream, and a whole run.
use network_layer_full.Base.{
  ℕ, ◌+◌, ◌^◌, ◌≤◌, ◌<◌, ◌≡◌, inl, inr, refl, sym, subst, ◌∙◌, false, Bool-cases, some, List, [],
  ◌∷◌, ◌++◌, append-nil, append_assoc, arith, ◌==◌, ne→not_==, length, length-append, All,
  All-append,
}
use network_layer_full.Transport.Segment.{Segment, max_seq_num}
use network_layer_full.Transport.Acks.{set_ack}
use network_layer_full.Transport.Acks.Laws.{total}
use network_layer_full.Transport.Point.{Output, spawned}
use network_layer_full.Transport.Sender.Run.{
  Event, gives, turns, hears, Round, given, turned, step, run,
}
use network_layer_full.Transport.Sender.{
  send_point, Phase, idle, sending, full, Sender, take_buffer, cut_size, next_segment,
  after_segment, advance, send_next, move_window, turn_of, send_thread,
}
use network_layer_full.Transport.Sender.Flow.{IsFlowing}
use network_layer_full.Transport.Sender.Window.{step-IsFlowing}
use network_layer_full.Transport.Sender.Pieces.{
  IsSent, PieceOf, take_buffer-IsSent, send_next-PieceOf, send_next-IsSent, move_window-IsSent,
}
use network_layer_full.Transport.Sender.Giving.{All-PieceOf-more, Kept, send_point-Gave, given-Kept}

-- A round that takes no bytes.
pub quiet-Kept :
    (first : ℕ) (stream : List ℕ) (n : ℕ) (out : List Output) (s : Sender)
    → All (PieceOf stream first) out
    → IsSent first stream s
    → Kept first stream n (record { accepted = []; outputs = out; sender = s })
quiet-Kept first stream n out s h v = record {
  pieces = rw (append-nil stream) h;
  sent = rw (append-nil stream) v;
  bounded = omega arith;
}

pub turn_of-Kept :
    (first : ℕ) (stream : List ℕ) (s : Sender) (raw : Segment) (phase : Phase)
    → 0 < s.point.window_size
    → first + length stream < max_seq_num
    → IsSent first stream s
    → s.phase ≡ phase
    → (r : Round) × (turned (turn_of s raw phase) ≡ some r) × Kept first stream 0 r
unfolding turn_of turned
turn_of-Kept first stream s raw idle pos small v e = elim (Bool-cases s.point.buffer_full) [
  | inl ready ↦
      let r : Round = record { accepted = []; outputs = []; sender = take_buffer s } in
      (
        r,
        rw ready refl,
        quiet-Kept first stream 0 [] (take_buffer s) tt
            (take_buffer-IsSent first stream s v e ready),
      )
  | inr wait ↦
      let r : Round = record { accepted = []; outputs = []; sender = s } in
      (r, rw wait refl, quiet-Kept first stream 0 [] s tt v)
]
turn_of-Kept first stream s raw sending pos small v e =
    let out = spawned (next_segment s raw) (cut_size s) ∷ [] in
    let r : Round = record { accepted = []; outputs = out; sender = advance (after_segment s) } in
    let wide : (s.point.window_size == 0) ≡ false = ne→not_== s.point.window_size 0 (omega arith) in
    (
      r,
      unfold send_next in rw wide refl,
      quiet-Kept first stream 0 out (advance (after_segment s))
          (send_next-PieceOf first stream s raw small v e, tt)
          (send_next-IsSent first stream s small v e),
    )
turn_of-Kept first stream s raw full pos small v e =
    let r : Round = record { accepted = []; outputs = []; sender = move_window s } in
    (
      r,
      refl,
      quiet-Kept first stream 0 [] (move_window s) tt (move_window-IsSent first stream s v e),
    )

-- How many bytes an event offers.
abbrev pub offered : Event → ℕ
offered (gives bytes) = length bytes
offered (turns raw) = 0
offered (hears num) = 0

abbrev pub all_offered : List Event → ℕ
all_offered [] = 0
all_offered (e ∷ es) = offered e + all_offered es

pub step-Kept :
    (first : ℕ) (stream : List ℕ) (s : Sender) (e : Event)
    → 0 < s.point.window_size
    → first + length stream < max_seq_num
    → IsSent first stream s
    → (r : Round) × (step s e ≡ some r) × Kept first stream (offered e) r
unfolding step send_thread
step-Kept first stream s (gives bytes) pos small v =
    let c = send_point s.point bytes (length bytes) in
    (given s bytes c, refl, given-Kept first stream s bytes c v (send_point-Gave s.point bytes))
step-Kept first stream s (turns raw) pos small v =
    turn_of-Kept first stream s raw s.phase pos small v refl
step-Kept first stream s (hears num) pos small v =
    let s' = record s { point = record (s.point) { acks = set_ack s.point.acks num } } in
    let r : Round = record { accepted = []; outputs = []; sender = s' } in
    (
      r,
      refl,
      quiet-Kept first stream 0 [] s' tt
          (record { at = v.at; numbered = v.numbered; owes = v.owes }),
    )

pub some_injective : {q r : Round} → some q ≡ some r → q ≡ r
some_injective e = cc

-- Both invariants go through a step together.
pub step_lem :
    (W first : ℕ) (stream : List ℕ) (s : Sender) (e : Event)
    → 0 < W
    → W < 2 ^ 16
    → IsFlowing W s
    → first + length stream < max_seq_num
    → IsSent first stream s
    → (r : Round) × (step s e ≡ some r) × IsFlowing W r.sender × Kept first stream (offered e) r
step_lem W first stream s e pos small v lt w =
    let a = step-IsFlowing W s e pos small v in
    let b = step-Kept first stream s e (omega (arith, v.width)) lt w in
    let same = some_injective (sym b.1 ∙ a.1) in
    (a.0, a.1, a.2, subst (Kept first stream (offered e)) same b.2)

-- A round and those after it.
abbrev pub both : Round → Round → Round
both now later = record {
  accepted = now.accepted ++ later.accepted;
  outputs = now.outputs ++ later.outputs;
  sender = later.sender;
}

pub run-both :
    (s : Sender) (e : Event) (es : List Event) (now later : Round)
    → step s e ≡ some now
    → run now.sender es ≡ some later
    → run s (e ∷ es) ≡ some (both now later)
unfolding run
run-both s e es now later p q = rw (p, q) refl

pub Kept-both :
    (first : ℕ) (stream : List ℕ) (n m : ℕ) (now later : Round)
    → Kept first stream n now
    → Kept first (stream ++ now.accepted) m later
    → Kept first stream (n + m) (both now later)
Kept-both first stream n m now later a b =
    let e = append_assoc stream now.accepted later.accepted in
    let before =
      All-PieceOf-more first (stream ++ now.accepted) later.accepted now.outputs a.pieces in
    record {
      pieces =
          subst (λ t. All (PieceOf t first) (now.outputs ++ later.outputs)) e
            (All-append (PieceOf (stream ++ now.accepted ++ later.accepted) first) now.outputs
              later.outputs before b.pieces);
      sent = subst (λ t. IsSent first t later.sender) e b.sent;
      bounded = omega (arith, a.bounded, b.bounded, length-append now.accepted later.accepted);
    }

pub run_lem :
    (W first : ℕ) (stream : List ℕ) (s : Sender) (events : List Event)
    → 0 < W
    → W < 2 ^ 16
    → IsFlowing W s
    → first + length stream + all_offered events < max_seq_num
    → IsSent first stream s
    → (r : Round) × (run s events ≡ some r) × Kept first stream (all_offered events) r
run_lem W first stream s [] pos small v lt w =
    let r : Round = record { accepted = []; outputs = []; sender = s } in
    (r, unfold run in refl, quiet-Kept first stream 0 [] s tt w)
run_lem W first stream s (e ∷ es) pos small v lt w =
    let now = step_lem W first stream s e pos small v (omega arith) w in
    let more = length-append stream now.0.accepted in
    let later =
      run_lem W first (stream ++ now.0.accepted) now.0.sender es pos small now.2
        (omega (arith, now.3.bounded, more)) now.3.sent in
    (
      both now.0 later.0,
      run-both s e es now.0 later.0 now.1 later.1,
      Kept-both first stream (offered e) (all_offered es) now.0 later.0 now.3 later.2,
    )

-- A sender before its first byte: the thread has not begun, the window is `W` bytes, nothing is
-- awaited, and the next number is `first`.
pub record IsNew (W first : ℕ) (s : Sender) : Type 0 where
  pub width : s.point.window_size ≡ W
  pub waits : s.phase ≡ idle
  pub fresh : s.begun ≡ false
  pub empty : s.point.buffer_full ≡ false
  pub at_start : s.window_ptr ≡ 0
  pub none_awaited : total s.point.acks ≡ 0
  pub numbered : s.point.seq_num_s ≡ first

-- The segments are pieces of the stream of all bytes that `send_point` has taken.
pub run-PieceOf :
    (W first : ℕ) (s : Sender) (events : List Event)
    → 0 < W
    → W < 2 ^ 16
    → IsNew W first s
    → first + all_offered events < max_seq_num
    → (r : Round) × (run s events ≡ some r)
      × All (PieceOf r.accepted first) r.outputs
      × (length r.accepted ≤ all_offered events)
run-PieceOf W first s events pos small new lt =
    let v : IsFlowing W s = record {
      width = new.width;
      flows = rw (new.waits, new.fresh) (new.none_awaited, new.at_start);
    } in
    let w : IsSent first [] s = record {
      at = 0;
      numbered = omega (arith, new.numbered);
      owes = rw (new.waits, new.empty) refl;
    } in
    let out = run_lem W first [] s events pos small v (omega arith) w in
    (out.0, out.1, out.2.pieces, out.2.bounded)
