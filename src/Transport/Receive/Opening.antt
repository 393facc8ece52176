-- ===== src/Transport/Receive/Opening.antt =====
-- The three messages that open a connection: `connect_point`, `recv_thread`, `sync_thread` and
-- `sync_ack_thread` of transport_layer/transport_layer.c.
use network_layer_full.Base.{
  ℕ, suc, ◌+◌, ◌%◌, ◌^◌, ◌<◌, ◌≡◌, refl, sym, ap₂, subst, Bool, false, [], ◌∷◌, arith, u16, u32,
}
use network_layer_full.Transport.Acks.{is_set, set_ack}
use network_layer_full.Transport.Acks.Laws.{is_set-set_ack}
use network_layer_full.Transport.Connect.{
  connect_point, start_connect, sync_thread, sync_ack_thread, ack_segment, send_ack,
}
use network_layer_full.Transport.Connect.Handshake.{AreConnected, arrived}
use network_layer_full.Transport.Point.{
  ServicePoint, spawned, sent_once, Call, done, blocked, fault, next_seq,
}
use network_layer_full.Transport.Receive.{recv_thread}
use network_layer_full.Transport.Receive.Closing.{bare}
use network_layer_full.Transport.Segment.{Segment, max_seq_num, buildsendsegment}

-- The exchange: a call that hands on a SYNC; the other point takes it in and answers with a
-- SYNC+ACK; the first point takes that in and answers with an ACK; and the other point takes in
-- the ACK. At the end the two are connected to each other, and at both the acknowledgement that
-- the thread of the SYNC, or of the SYNC+ACK, waits for is set.
pub record Opens (p q : ServicePoint) (host_p host_q sp_p sp_q window_size random_p random_q : ℕ)
    (raw raw' raw'' : Segment) : Type 0 where
  pub syn : Segment
  pub syn_ack : Segment
  pub ack : Segment
  pub asking : ServicePoint
  pub answering : ServicePoint
  pub opened : ServicePoint
  pub answered : ServicePoint
  pub asks :
      connect_point p sp_p host_q sp_q window_size random_p raw ≡ done 1 asking (spawned syn 1 ∷ [])
  pub answers :
      recv_thread q sp_q (arrived syn host_p) random_q raw' raw'
      ≡ done tt answering (spawned syn_ack 1 ∷ [])
  pub confirms :
      (random : ℕ)
      → recv_thread asking sp_p (arrived syn_ack host_q) random raw'' raw''
        ≡ done tt opened (sent_once host_q (buildsendsegment ack 0).1 ∷ [])
  pub hears :
      (random : ℕ)
      → recv_thread answering sp_q (bare ack host_p) random raw raw ≡ done tt answered []
  pub connected : AreConnected opened answered host_p host_q sp_p sp_q
  pub acknowledged :
      (is_set opened.acks (u32 (syn.seq_num + 1)) ≡ 1)
      × (is_set answered.acks (u32 (syn_ack.seq_num + 1)) ≡ 1)

abbrev after {ℓ} : {A : Type ℓ} → ServicePoint → Call A → ServicePoint
after p blocked = p
after p fault = p
after p (done a p' out) = p'

abbrev spawned_by {ℓ} : {A : Type ℓ} → Segment → Call A → Segment
spawned_by seg blocked = seg
spawned_by seg fault = seg
spawned_by seg (done a p []) = seg
spawned_by seg (done a p (spawned seg' n ∷ out)) = seg'
spawned_by seg (done a p (sent_once host bytes ∷ out)) = seg

-- A point that is neither connected nor held.
abbrev unconnected : ServicePoint → ServicePoint
unconnected p = record p { con_held = false; flag_con = 0 }

unconnected_lem : (p : ServicePoint) → p.con_held ≡ false → p.flag_con ≡ 0 → unconnected p ≡ p
unconnected_lem p h f =
    ap₂ (λ (c : Bool) (n : ℕ). record p { con_held = c; flag_con = n }) (sym h) (sym f)

-- The number that is acknowledged is the one that the thread of the segment looks for.
is_set-next_seq :
    (p : ServicePoint) (seq : ℕ)
    → seq + 1 < max_seq_num
    → is_set (set_ack p.acks (next_seq seq)) (u32 (seq + 1)) ≡ 1
is_set-next_seq p seq small =
    let num = u32 (seq + 1) in
    let same : next_seq seq ≡ num = omega arith in
    rw same (is_set-set_ack p.acks num (suc num) (λ e. absurd (omega arith))).0

-- The numbers that the two sides choose for their first segments.
abbrev pub first_seq : ℕ → ℕ → ℕ
first_seq random window_size = (random % max_seq_num + window_size) % 2 ^ 64 % max_seq_num

abbrev pub first_answer : ℕ → ℕ → ℕ
first_answer random window_size = (random % max_seq_num + u16 window_size) % max_seq_num

unconnected-Opens :
    (p q : ServicePoint) (host_p host_q sp_p sp_q window_size random_p random_q : ℕ)
    (raw raw' raw'' : Segment)
    → first_seq random_p window_size + 1 < max_seq_num
    → first_answer random_q window_size + 1 < max_seq_num
    → Opens
        (unconnected p)
        (unconnected q)
        host_p
        host_q
        sp_p
        sp_q
        window_size
        random_p
        random_q
        raw
        raw'
        raw''
unfolding connect_point start_connect recv_thread sync_thread sync_ack_thread send_ack
unconnected-Opens p q host_p host_q sp_p sp_q window_size random_p random_q raw raw' raw'' small_p
      small_q =
    let asked = connect_point (unconnected p) sp_p host_q sp_q window_size random_p raw in
    let syn = spawned_by raw asked in
    let asking = after p asked in
    let answer = recv_thread (unconnected q) sp_q (arrived syn host_p) random_q raw' raw' in
    let syn_ack = spawned_by raw' answer in
    let answering = after q answer in
    let ack = ack_segment asking sp_p sp_q (next_seq syn_ack.seq_num) raw'' in
    record {
      syn = syn;
      syn_ack = syn_ack;
      ack = ack;
      asking = asking;
      answering = answering;
      opened = after p (recv_thread asking sp_p (arrived syn_ack host_q) 0 raw'' raw'');
      answered = record answering { acks = set_ack answering.acks ack.ack_num };
      asks = refl;
      answers = refl;
      confirms = λ random. refl;
      hears = λ random. refl;
      connected = record {
        open_p = refl;
        open_q = refl;
        p_to_q = refl;
        q_to_p = refl;
        windows = refl;
        names_p = (refl, refl);
        names_q = (refl, refl);
      };
      acknowledged = (
        is_set-next_seq asking (first_seq random_p window_size) small_p,
        is_set-next_seq answering (first_answer random_q window_size) small_q,
      );
    }

-- A call of `connect_point` between two points that are neither connected nor held succeeds and
-- hands on a SYNC; the other point takes it in and answers with a SYNC+ACK; the first point takes
-- that in and answers with an ACK, which the other point takes in. Then both are connected, to
-- each other: each expects the number that the other sends next, and both have the same window;
-- and both threads that repeat a segment find it acknowledged. The numbers that the two sides
-- choose are not the last before the numbers start again.
pub connect_point-Opens :
    (p q : ServicePoint) (host_p host_q sp_p sp_q window_size random_p random_q : ℕ)
    (raw raw' raw'' : Segment)
    → p.con_held ≡ false
    → p.flag_con ≡ 0
    → q.con_held ≡ false
    → q.flag_con ≡ 0
    → first_seq random_p window_size + 1 < max_seq_num
    → first_answer random_q window_size + 1 < max_seq_num
    → Opens p q host_p host_q sp_p sp_q window_size random_p random_q raw raw' raw''
connect_point-Opens p q host_p host_q sp_p sp_q window_size random_p random_q raw raw' raw'' hp fp
      hq fq small_p small_q =
    let here =
      unconnected-Opens p q host_p host_q sp_p sp_q window_size random_p random_q raw raw' raw''
        small_p small_q in
    let half =
      subst
        (λ (t : ServicePoint).
          Opens t (unconnected q) host_p host_q sp_p sp_q window_size random_p random_q raw raw'
            raw'')
        (unconnected_lem p hp fp) here in
    subst
      (λ (t : ServicePoint).
        Opens p t host_p host_q sp_p sp_q window_size random_p random_q raw raw' raw'')
      (unconnected_lem q hq fq) half
