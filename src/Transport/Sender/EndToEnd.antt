-- ===== src/Transport/Sender/EndToEnd.antt =====
-- From the bytes that one application writes to those that the other reads.
use network_layer_full.Base.{
  ℕ, ◌+◌, ◌^◌, ◌≤◌, ◌<◌, ◌≡◌, ◌⊎◌, inl, inr, sym, subst, ◌∙◌, some, List, [], ◌∷◌, ◌++◌, arith,
  length, take, All,
}
use network_layer_full.Transport.Segment.{max_seq_num}
use network_layer_full.Transport.Segs.{Receiver}
use network_layer_full.Transport.Segs.Stream.{content}
use network_layer_full.Transport.Segs.Reading.{arrives, reads, AllPieces, run-prefix}
use network_layer_full.Transport.Segs.Reading
use network_layer_full.Transport.Point.{Output, spawned}
use network_layer_full.Transport.Sender.Run.{Event, Round, run}
use network_layer_full.Transport.Sender.{Sender}
use network_layer_full.Transport.Sender.Pieces.{PieceOf}
use network_layer_full.Transport.Sender.Rounds.{all_offered, some_injective, IsNew, run-PieceOf}

-- An output that is among those of a sender.
abbrev pub IsAmong : Output → List Output → Type 0
IsAmong x [] = ⊥
IsAmong x (o ∷ os) = (x ≡ o) ⊎ IsAmong x os

among_All : (P : Output → Type 0) (x : Output) (os : List Output) → IsAmong x os → All P os → P x
among_All P x [] m h = absurd m
among_All P x (o ∷ os) (inl e) h = subst P (sym e) h.0
among_All P x (o ∷ os) (inr m) h = among_All P x os m h.1

-- Only segments that the sender has handed on arrive at the receiver.
abbrev pub AllFrom : List Output → List Reading.Event → Type 0
AllFrom os [] = Unit
AllFrom os (arrives seg size ∷ es) = IsAmong (spawned seg size) os × AllFrom os es
AllFrom os (reads size ∷ es) = AllFrom os es

AllFrom-AllPieces :
    (stream : List ℕ) (first : ℕ) (os : List Output) (es : List Reading.Event)
    → All (PieceOf stream first) os
    → AllFrom os es
    → AllPieces stream first es
AllFrom-AllPieces stream first os [] h m = tt
AllFrom-AllPieces stream first os (arrives seg size ∷ es) h m = (
  among_All (PieceOf stream first) (spawned seg size) os m.0 h,
  AllFrom-AllPieces stream first os es h m.1,
)
AllFrom-AllPieces stream first os (reads size ∷ es) h m = AllFrom-AllPieces stream first os es h m

-- The bytes read at the other end are the beginning of the bytes written. The sender is new, its
-- window has `W` bytes, `W` positive, and the numbers of the stream stay below `max_seq_num`; what
-- the application writes, when the thread gets its turns and which acknowledgements arrive are
-- arbitrary, and `r` is what then comes of the run. The receiver expects the sender's first
-- number; the segments that were handed on arrive there in whatever order and as often as the
-- network likes, if at all, between calls that read. What has been read there is then the
-- beginning, of some length, of the bytes that `send_point` has taken.
pub read-prefix_of_written :
    (W first : ℕ) (s : Sender) (events : List Event) (r : Round) (arrivals : List Reading.Event)
    → 0 < W
    → W < 2 ^ 16
    → IsNew W first s
    → first + all_offered events < max_seq_num
    → run s events ≡ some r
    → AllFrom r.outputs arrivals
    → let start : Receiver = record { seq_num_r = first; segs = []; segs_aux = [] } in
      (k : ℕ) × (k ≤ length r.accepted)
      × ((Reading.run start arrivals).0 ++ content (Reading.run start arrivals).1.segs
          ≡ take k r.accepted)
read-prefix_of_written W first s events r arrivals pos small new lt e from =
    let sent = run-PieceOf W first s events pos small new lt in
    let same : sent.0 ≡ r = some_injective (sym sent.1 ∙ e) in
    let pieces : All (PieceOf r.accepted first) r.outputs =
      subst (λ (t : Round). All (PieceOf t.accepted first) t.outputs) same sent.2 in
    let bound : length r.accepted ≤ all_offered events =
      subst (λ (t : Round). length t.accepted ≤ all_offered events) same sent.3 in
    let out =
      run-prefix r.accepted first arrivals (omega arith)
        (AllFrom-AllPieces r.accepted first r.outputs arrivals pieces from) in
    (out.0, out.1, out.2)
