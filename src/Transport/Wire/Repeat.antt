-- ===== src/Transport/Wire/Repeat.antt =====
-- How long a segment is repeated.
use network_layer_full.Base.{
  ℕ, ◌+◌, ◌%◌, ◌^◌, ◌<◌, ◌≡◌, ◌≢◌, refl, ap, ◌∙◌, true, some, Option, List, [], ◌∷◌, arith,
  ne→not_==, All, u32,
}
use network_layer_full.Transport.Acks.{Ack, is_set}
use network_layer_full.Transport.Point.{ServicePoint, Output, sent_once}
use network_layer_full.Transport.Segment.{Segment, max_seq_num, buildsendsegment}
use network_layer_full.Transport.Wire.{wait_ack, first_copy, seg_send_thread}

-- The service point after some pauses, and after those that follow.
abbrev pub looks : List ServicePoint → List (Option ServicePoint) → List (Option ServicePoint)
looks [] later = later
looks (p ∷ ps) later = some p ∷ looks ps later

-- One copy for each.
abbrev pub copies : List ℕ → List ServicePoint → List Output
copies bytes [] = []
copies bytes (p ∷ ps) = sent_once p.dest bytes ∷ copies bytes ps

wait_ack-until :
    (bytes : List ℕ) (num : ℕ) (unset : List ServicePoint) (p : ServicePoint)
    (later : List (Option ServicePoint))
    → All (λ (q : ServicePoint). is_set q.acks num ≡ 0) unset
    → is_set p.acks num ≡ 1
    → wait_ack bytes num (looks unset (some p ∷ later)) ≡ (copies bytes unset, true)
unfolding wait_ack
wait_ack-until bytes num [] p later h set = rw set
wait_ack-until bytes num (q ∷ unset) p later h set =
    rw (h.0, wait_ack-until bytes num unset p later h.1 set)

-- A segment is sent once at the start, and once after each pause after which its acknowledgement
-- is still awaited; after the first pause after which it is set, the thread ends.
pub seg_send_thread-until :
    (seg : Segment) (size : ℕ) (first : ServicePoint) (unset : List ServicePoint) (p : ServicePoint)
    (later : List (Option ServicePoint))
    → All (λ (q : ServicePoint). is_set q.acks ((seg.seq_num + size) % 2 ^ 32) ≡ 0) unset
    → is_set p.acks ((seg.seq_num + size) % 2 ^ 32) ≡ 1
    → seg_send_thread seg size (some first) (looks unset (some p ∷ later))
      ≡ (copies (buildsendsegment seg size).1 (first ∷ unset), true)
unfolding seg_send_thread first_copy
seg_send_thread-until seg size first unset p later h set =
    rw (wait_ack-until (buildsendsegment seg size).1 (u32 (seg.seq_num + size)) unset p later h set)

is_set-absent :
    (acks : List Ack) (num : ℕ) → All (λ (a : Ack). a.seq_num ≢ num) acks → is_set acks num ≡ 1
unfolding is_set
is_set-absent [] num h = refl
is_set-absent (a ∷ acks) num h = rw (ne→not_== a.seq_num num h.0, is_set-absent acks num h.1)

below :
    (acks : List Ack)
    → All (λ (a : Ack). a.seq_num < max_seq_num) acks
    → All (λ (a : Ack). a.seq_num ≢ max_seq_num) acks
below [] h = tt
below (a ∷ acks) h = (λ e. absurd (omega (arith, h.0)), below acks h.1)

-- The numbers in the list of acknowledgements are all below 2 ^ 32 - 1. A segment whose number and
-- size add up to 2 ^ 32 - 1 is therefore sent once and never repeated, though nothing has
-- acknowledged it.
pub seg_send_thread-gives_up :
    (seg : Segment) (size : ℕ) (first p : ServicePoint) (later : List (Option ServicePoint))
    → All (λ (a : Ack). a.seq_num < max_seq_num) p.acks
    → seg.seq_num + size ≡ max_seq_num
    → seg_send_thread seg size (some first) (some p ∷ later)
      ≡ (sent_once first.dest (buildsendsegment seg size).1 ∷ [], true)
seg_send_thread-gives_up seg size first p later h edge =
    let num : (seg.seq_num + size) % 2 ^ 32 ≡ max_seq_num = omega arith in
    seg_send_thread-until seg size first [] p later tt
      (ap (is_set p.acks) num ∙ is_set-absent p.acks max_seq_num (below p.acks h))
