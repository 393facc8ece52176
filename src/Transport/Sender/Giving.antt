-- ===== src/Transport/Sender/Giving.antt =====
-- What a call of `send_point` does to the stream.
use network_layer_full.Base.{
  ℕ, ◌≤◌, ◌≡◌, ◌⊎◌, inl, inr, refl, sym, ap, ◌∙◌, true, false, Bool-cases, List, [], ◌∷◌, ◌++◌,
  append-nil, arith, ◌==◌, length, length-append, length-take, take, drop, length-drop,
  take-append_le, drop-append_le, drop-append_of, All,
}
use network_layer_full.Transport.Segs.{Entry}
use network_layer_full.Transport.Segs.Stream.{IsPiece}
use network_layer_full.Transport.Point.{
  ServicePoint, Output, spawned, sent_once, Call, done, blocked, fault,
}
use network_layer_full.Transport.Sender.Run.{Round, given}
use network_layer_full.Transport.Sender.{taken_size, send_point, Phase, idle, sending, full, Sender}
use network_layer_full.Transport.Sender.Pieces.{Owes, IsSent, PieceOf}

-- A piece of a stream is a piece of every longer one.
pub IsPiece-more :
    (first : ℕ) (stream more : List ℕ) (e : Entry)
    → IsPiece stream first e
    → IsPiece (stream ++ more) first e
IsPiece-more first stream more e p = record {
  at = p.at;
  numbered = p.numbered;
  inside = omega (arith, p.inside, length-append stream more);
  same =
      p.same
      ∙ sym (
          ap (take e.size) (drop-append_le p.at stream more (omega (arith, p.inside)))
          ∙ take-append_le e.size (drop p.at stream) more
              (omega (arith, p.inside, length-drop p.at stream)));
}

pub PieceOf-more :
    (first : ℕ) (stream more : List ℕ) (o : Output)
    → PieceOf stream first o
    → PieceOf (stream ++ more) first o
PieceOf-more first stream more (spawned seg size) p =
    IsPiece-more first stream more (record { segm = seg; size = size }) p
PieceOf-more first stream more (sent_once host bytes) p = p

pub All-PieceOf-more :
    (first : ℕ) (stream more : List ℕ) (os : List Output)
    → All (PieceOf stream first) os
    → All (PieceOf (stream ++ more) first) os
All-PieceOf-more first stream more [] h = tt
All-PieceOf-more first stream more (o ∷ os) h =
    (PieceOf-more first stream more o h.0, All-PieceOf-more first stream more os h.1)

-- What a round adds to the stream, and that it keeps the sender in step.
pub record Kept (first : ℕ) (stream : List ℕ) (n : ℕ) (r : Round) : Type 0 where
  pub pieces : All (PieceOf (stream ++ r.accepted) first) r.outputs
  pub sent : IsSent first (stream ++ r.accepted) r.sender
  pub bounded : length r.accepted ≤ n

-- What a call of `send_point` does to the buffer.
abbrev pub Gave : ServicePoint → List ℕ → Call ℕ → Type 0
Gave p bytes blocked = Unit
Gave p bytes fault = Unit
Gave p bytes (done n p' outputs) =
    (p'.seq_num_s ≡ p.seq_num_s)
    × (n ≤ length bytes)
    × (((n ≡ 0)
          × (p'.buffer_full ≡ p.buffer_full)
          × (p'.send_buff ≡ p.send_buff)
          × (p'.send_size ≡ p.send_size))
        ⊎ ((p.buffer_full ≡ false)
            × (p'.buffer_full ≡ true)
            × (p'.send_buff ≡ take n bytes)
            × (p'.send_size ≡ n)))

pub send_point-Gave :
    (p : ServicePoint) (bytes : List ℕ) → Gave p bytes (send_point p bytes (length bytes))
unfolding send_point
send_point-Gave p bytes = elim (Bool-cases p.con_held) [
  | inl held ↦ rw held tt
  | inr free ↦ elim (Bool-cases (p.flag_con == 2)) [
    | inl open' ↦ elim (Bool-cases p.buffer_full) [
      | inl busy ↦ rw (free, open', busy) tt
      | inr ready ↦
          let le : taken_size (length bytes) ≤ length bytes = ground arith in
          rw (free, open', ready) (refl, le, inr (refl, refl, refl, refl))
    ]
    | inr shut ↦ rw (free, shut) (refl, omega arith, inl (refl, refl, refl, refl))
  ]
]

-- A buffer can only be handed over when all before it has been sent.
pub Owes-given :
    (stream bytes : List ℕ) (at : ℕ) (phase : Phase) (buff buff' : List ℕ)
    (size size' ptr left n : ℕ)
    → Owes stream at phase false buff size ptr left
    → n ≤ length bytes
    → buff' ≡ take n bytes
    → size' ≡ n
    → Owes (stream ++ take n bytes) at phase true buff' size' ptr left
Owes-given stream bytes at idle buff buff' size size' ptr left n o le eb es = (
  drop-append_of at stream (take n bytes) o ∙ sym eb,
  omega (arith, length-append stream (take n bytes), length-take n bytes),
)
Owes-given stream bytes at sending buff buff' size size' ptr left n o le eb es = cc
Owes-given stream bytes at full buff buff' size size' ptr left n o le eb es = cc

pub given-Kept :
    (first : ℕ) (stream : List ℕ) (s : Sender) (bytes : List ℕ) (c : Call ℕ)
    → IsSent first stream s
    → Gave s.point bytes c
    → Kept first stream (length bytes) (given s bytes c)
unfolding given
given-Kept first stream s bytes blocked v g = record {
  pieces = tt;
  sent = rw (append-nil stream) v;
  bounded = omega arith;
}
given-Kept first stream s bytes fault v g = record {
  pieces = tt;
  sent = rw (append-nil stream) v;
  bounded = omega arith;
}
given-Kept first stream s bytes (done n p outputs) v (eq_num, le, inl g) =
    let nothing : take n bytes ≡ [] = ap (λ k. take k bytes) g.0 in
    record {
      pieces = tt;
      sent =
          rw (nothing, append-nil stream)
            (record {
              at = v.at;
              numbered = eq_num ∙ v.numbered;
              owes = rw (g.1, g.2, g.3) v.owes;
            });
      bounded = omega (arith, length-take n bytes);
    }
given-Kept first stream s bytes (done n p outputs) v (eq_num, le, inr g) =
    let before : Owes stream v.at s.phase false s.point.send_buff s.point.send_size s.send_ptr
        s.left =
      rw g.0 at v.owes in
    record {
      pieces = tt;
      sent = record {
        at = v.at;
        numbered = eq_num ∙ v.numbered;
        owes = rw g.1 (
            Owes-given stream bytes v.at s.phase s.point.send_buff p.send_buff s.point.send_size
              p.send_size s.send_ptr s.left n before le g.2 g.3);
      };
      bounded = omega (arith, length-take n bytes);
    }
