-- ===== src/Transport/Receive/Repeated.antt =====
-- A FIN that comes again: `recv_thread` and `close_conn_aux` of transport_layer/transport_layer.c.
use network_layer_full.Base.{
  ℕ, ◌≡◌, ◌≢◌, refl, inl, inr, false, Bool-cases, List, [], ◌∷◌, append-nil, arith, ◌==◌, ne→not_==,
  All,
}
use network_layer_full.Transport.Connect.{Received, close_conn_aux}
use network_layer_full.Transport.Point.{ServicePoint, Output, Call, done, blocked}
use network_layer_full.Transport.Receive.{recv_thread, Arriving, and_turns, recv_turns}
use network_layer_full.Transport.Segment.{Segment}

abbrev IsFin : Arriving → Type 0
IsFin a = a.0.segment.flags ≡ 4

-- Neither connected nor closing.
abbrev IsQuiet : ServicePoint → Type 0
IsQuiet p = (p.con_held ≡ false) × (p.flag_con ≢ 2) × (p.flag_con ≢ 3)

recv_thread-quiet :
    (sp : ℕ) (p : ServicePoint) (recv : Received) (random : ℕ) (raw raw_fin : Segment)
    → IsQuiet p
    → recv.segment.flags ≡ 4
    → recv_thread p sp recv random raw raw_fin ≡ done tt p []
unfolding recv_thread close_conn_aux
recv_thread-quiet sp p recv random raw raw_fin h fin =
    let two = ne→not_== p.flag_con 2 h.1 in
    let three = ne→not_== p.flag_con 3 h.2 in rw (fin, h.0, two, three)

recv_turns-quiet :
    (sp : ℕ) (p : ServicePoint) (fins : List Arriving)
    → IsQuiet p
    → All IsFin fins
    → recv_turns sp fins p ≡ done tt p []
unfolding recv_turns
recv_turns-quiet sp p [] h all = refl
recv_turns-quiet sp p ((recv, random, raw, raw_fin) ∷ fins) h all =
    let turn = recv_thread-quiet sp p recv random raw raw_fin h all.0 in
    rw (turn, recv_turns-quiet sp p fins h all.1)

-- What a turn for a FIN leaves: the caller waits, or the point is quiet.
data Left (turn : Call (Unit {0})) : Type 0 where
  waits : turn ≡ blocked → Left turn
  quiet : (p : ServicePoint) (out : List Output) → turn ≡ done tt p out → IsQuiet p → Left turn

close_conn_aux-IsQuiet :
    (p : ServicePoint) (sp : ℕ) (recv : Received) (raw raw_fin : Segment)
    → p.con_held ≡ false
    → IsQuiet (close_conn_aux p sp recv raw raw_fin).0
unfolding close_conn_aux
close_conn_aux-IsQuiet p sp recv raw raw_fin free = elim (Bool-cases (p.flag_con == 2)) [
  | inl two ↦ rw two (free, omega arith, omega arith)
  | inr not_two ↦ elim (Bool-cases (p.flag_con == 3)) [
    | inl three ↦ rw (not_two, three) (free, omega arith, omega arith)
    | inr not_three ↦ rw (not_two, not_three) (free, ground arith, ground arith)
  ]
]

recv_thread-Left :
    (sp : ℕ) (p : ServicePoint) (recv : Received) (random : ℕ) (raw raw_fin : Segment)
    → recv.segment.flags ≡ 4
    → Left (recv_thread p sp recv random raw raw_fin)
unfolding recv_thread
recv_thread-Left sp p recv random raw raw_fin fin = elim (Bool-cases p.con_held) [
  | inl held ↦ waits (rw (fin, held))
  | inr free ↦
      let after = close_conn_aux p sp recv raw raw_fin in
      quiet after.0 after.1 (rw (fin, free)) (close_conn_aux-IsQuiet p sp recv raw raw_fin free)
]

turns-Left :
    (sp : ℕ) (fins : List Arriving) (turn : Call (Unit {0}))
    → All IsFin fins
    → Left turn
    → and_turns turn (recv_turns sp fins) ≡ turn
turns-Left sp fins turn all (waits e) = rw e
turns-Left sp fins turn all (quiet p out e h) =
    let rest = recv_turns-quiet sp p fins h all in rw (e, rest, append-nil out)

-- Of FIN segments that arrive one after the other, only the first has an effect: the turns of
-- `recv_thread` for all of them end as the turn for the first alone, whatever the state of the
-- service point is. So a FIN that comes again, as it does when its ACK is lost, is not answered.
pub recv_turns-fins :
    (sp : ℕ) (p : ServicePoint) (recv : Received) (random : ℕ) (raw raw_fin : Segment)
    (fins : List Arriving)
    → recv.segment.flags ≡ 4
    → All IsFin fins
    → recv_turns sp ((recv, random, raw, raw_fin) ∷ fins) p
      ≡ recv_thread p sp recv random raw raw_fin
unfolding recv_turns
recv_turns-fins sp p recv random raw raw_fin fins fin all =
    turns-Left sp fins (recv_thread p sp recv random raw raw_fin) all
      (recv_thread-Left sp p recv random raw raw_fin fin)
