-- ===== src/Transport/Kept.antt =====
-- What every call and the receiving thread keep of a service point: transport_layer/transport_layer.c.
pub mod Sending
use network_layer_full.Base.{
  ℕ, ◌+◌, ◌%◌, ◌^◌, ◌≤◌, ◌<◌, ◌≡◌, refl, inl, inr, Bool, Bool-cases, true, false, Option, none,
  some, List, [], ◌∷◌, ◌++◌, arith, ◌==◌, All, All-append, u32, if◌then◌else◌,
}
use network_layer_full.Transport.Acks.{Ack, insert_ack, set_ack, in_seq}
use network_layer_full.Transport.Connect.{
  Received, awaited, connect_point, start_connect, close_conn, await_fin, sync_thread,
  sync_ack_thread, close_conn_aux,
}
use network_layer_full.Transport.Point.{ServicePoint, Call, done, blocked, fault, next_seq, fresh}
use network_layer_full.Transport.Receive.{
  recv_thread, on_data, on_verdict, is_freed, take_in, judge, Verdict, discard, again, store,
}
use network_layer_full.Transport.Segment.{Segment, max_seq_num}
use network_layer_full.Transport.Sender.{send_point}

-- The state of the connection is one of four, and every awaited number is a sequence number.
pub record IsPoint (p : ServicePoint) : Type 0 where
  pub state : p.flag_con ≤ 3
  pub numbers : All (λ (a : Ack). a.seq_num < max_seq_num) p.acks

-- What a call leaves, if it ends.
abbrev pub Leaves {ℓ} : {A : Type ℓ} → Call A → Type 0
Leaves (done a p out) = IsPoint p
Leaves blocked = Unit
Leaves fault = Unit

if-Leaves {ℓ} :
    {A : Type ℓ} (b : Bool) (x y : Call A) → Leaves x → Leaves y → Leaves (if b then x else y)
if-Leaves true x y left right = left
if-Leaves false x y left right = right

if-IsPoint :
    {A : Type 0} (b : Bool) (x y : ServicePoint × A)
    → IsPoint x.0
    → IsPoint y.0
    → IsPoint (if b then x else y).0
if-IsPoint true x y left right = left
if-IsPoint false x y left right = right

pub insert_ack-numbers :
    (acks : List Ack) (n size : ℕ)
    → All (λ (a : Ack). a.seq_num < max_seq_num) acks
    → n < max_seq_num
    → All (λ (a : Ack). a.seq_num < max_seq_num) (insert_ack acks (awaited n size))
unfolding insert_ack
insert_ack-numbers acks n size h small =
    All-append (λ (a : Ack). a.seq_num < max_seq_num) acks (awaited n size ∷ []) h (small, tt)

set_ack-numbers :
    (acks : List Ack) (num : ℕ)
    → All (λ (a : Ack). a.seq_num < max_seq_num) acks
    → All (λ (a : Ack). a.seq_num < max_seq_num) (set_ack acks num)
unfolding set_ack
set_ack-numbers [] num h = tt
set_ack-numbers (a ∷ acks) num h = elim (Bool-cases (a.seq_num == num)) [
  | inl e ↦ rw e h
  | inr e ↦ rw e (h.0, set_ack-numbers acks num h.1)
]

next_seq-small : (x : ℕ) → next_seq x < max_seq_num
next_seq-small x = omega arith

pub connect_point-Leaves :
    (p : ServicePoint) (point dest dest_point window_size random : ℕ) (raw : Segment)
    → IsPoint p
    → Leaves (connect_point p point dest dest_point window_size random raw)
unfolding connect_point start_connect
connect_point-Leaves p point dest dest_point window_size random raw v =
    if-Leaves p.con_held _ _ tt (
      if-Leaves (p.flag_con == 0) _ _
        (record {
          state = omega arith;
          numbers = insert_ack-numbers p.acks _ 0 v.numbers (next_seq-small _);
        })
        v)

await_fin-numbers :
    (p : ServicePoint) → IsPoint p → All (λ (a : Ack). a.seq_num < max_seq_num) (await_fin p).acks
unfolding await_fin
await_fin-numbers p v =
    insert_ack-numbers p.acks (next_seq p.seq_num_s) 1 v.numbers (next_seq-small _)

pub close_conn-Leaves :
    (p : ServicePoint) (point : ℕ) (raw : Segment) → IsPoint p → Leaves (close_conn p point raw)
unfolding close_conn
close_conn-Leaves p point raw v = if-Leaves p.con_held _ _ tt (
    if-Leaves (p.flag_con == 2) _ _
      (record { state = omega arith; numbers = await_fin-numbers p v }) v)

pub send_point-Leaves :
    (p : ServicePoint) (buffer : List ℕ) (tamanho : ℕ)
    → IsPoint p
    → Leaves (send_point p buffer tamanho)
unfolding send_point
send_point-Leaves p buffer tamanho v = if-Leaves p.con_held _ _ tt (
    if-Leaves (p.flag_con == 2) _ _
      (if-Leaves p.buffer_full _ _ tt (record { state = v.state; numbers = v.numbers })) v)

sync_thread-Leaves :
    (p : ServicePoint) (syn : Received) (random : ℕ) (raw : Segment)
    → IsPoint p
    → Leaves (sync_thread p syn random raw)
unfolding sync_thread
sync_thread-Leaves p syn random raw v = if-Leaves p.con_held _ _ tt (
    if-Leaves (p.flag_con == 0) _ _
      (record {
        state = omega arith;
        numbers = insert_ack-numbers p.acks _ 0 v.numbers (next_seq-small _);
      })
      v)

sync_ack_thread-Leaves :
    (p : ServicePoint) (syn : Received) (raw : Segment)
    → IsPoint p
    → Leaves (sync_ack_thread p syn raw)
unfolding sync_ack_thread
sync_ack_thread-Leaves p syn raw v = if-Leaves p.con_held _ _ tt (
    if-Leaves (p.flag_con == 1) _ _
      (record {
        state = omega arith;
        numbers = set_ack-numbers p.acks syn.segment.ack_num v.numbers;
      })
      v)

close_conn_aux-IsPoint :
    (p : ServicePoint) (point : ℕ) (recv : Received) (raw raw_fin : Segment)
    → IsPoint p
    → IsPoint (close_conn_aux p point recv raw raw_fin).0
unfolding close_conn_aux
close_conn_aux-IsPoint p point recv raw raw_fin v =
    if-IsPoint (p.flag_con == 2) _ _
      (record { state = omega arith; numbers = await_fin-numbers p v })
      (if-IsPoint (p.flag_con == 3) _ _ (record { state = omega arith; numbers = v.numbers }) v)

on_verdict-Leaves :
    (p : ServicePoint) (sp : ℕ) (recv : Received) (raw : Segment) (verdict : Verdict)
    → IsPoint p
    → Leaves (on_verdict p sp recv raw verdict)
unfolding on_verdict take_in
on_verdict-Leaves p sp recv raw discard v = v
on_verdict-Leaves p sp recv raw again v = v
on_verdict-Leaves p sp recv raw store v =
    if-Leaves (is_freed p recv.segment) _ _ tt (record { state = v.state; numbers = v.numbers })

on_data-Leaves :
    (p : ServicePoint) (sp : ℕ) (recv : Received) (raw : Segment)
    → IsPoint p
    → Leaves (on_data p sp recv raw)
unfolding on_data
on_data-Leaves p sp recv raw v = if-Leaves p.con_held _ _ tt (
    if-Leaves (p.flag_con == 2) _ _
      (on_verdict-Leaves p sp recv raw (judge p recv.segment.seq_num) v)
      (record { state = v.state; numbers = v.numbers }))

pub recv_thread-Leaves :
    (p : ServicePoint) (sp : ℕ) (recv : Received) (random : ℕ) (raw raw_fin : Segment)
    → IsPoint p
    → Leaves (recv_thread p sp recv random raw raw_fin)
unfolding recv_thread
recv_thread-Leaves p sp recv random raw raw_fin v =
    if-Leaves (recv.segment.flags == 0) _ _ (on_data-Leaves p sp recv raw v) (
      if-Leaves (recv.segment.flags == 1) _ _ (sync_thread-Leaves p recv random raw v) (
        if-Leaves (recv.segment.flags == 2) _ _ (sync_ack_thread-Leaves p recv raw v) (
          if-Leaves (recv.segment.flags == 3) _ _
            (record {
              state = v.state;
              numbers = set_ack-numbers p.acks recv.segment.ack_num v.numbers;
            })
            (if-Leaves (recv.segment.flags == 4) _ _
              (if-Leaves p.con_held _ _ tt (close_conn_aux-IsPoint p sp recv raw raw_fin v)) v))))
