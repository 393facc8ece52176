-- ===== src/Transport/Receive/Closing.antt =====
-- The four messages that close a connection, and a FIN that comes again: `close_conn`,
-- `recv_thread` and `close_conn_aux` of transport_layer/transport_layer.c.
use network_layer_full.Base.{
  ℕ, suc, ◌+◌, ◌<◌, ◌≡◌, refl, sym, ap₂, subst, Bool, false, [], ◌∷◌, arith, u32,
}
use network_layer_full.Transport.Acks.{is_set, set_ack}
use network_layer_full.Transport.Acks.Laws.{is_set-set_ack}
use network_layer_full.Transport.Connect.{
  Received, close_conn, close_conn_aux, fin_segment, await_fin, ack_segment, send_ack, behind,
}
use network_layer_full.Transport.Connect.Handshake.{AreConnected, arrived}
use network_layer_full.Transport.Point.{ServicePoint, spawned, sent_once, done}
use network_layer_full.Transport.Receive.{recv_thread}
use network_layer_full.Transport.Segment.{
  Segment, max_seq_num, transport_header_size, buildsendsegment,
}

-- A segment arrives with no payload.
abbrev pub bare : Segment → ℕ → Received
bare seg host = record { segment = seg; size = transport_header_size; src = host }

-- The exchange: `p` sends a FIN, `q` answers with an ACK and a FIN, and `p` takes in the ACK, then
-- the FIN, which it answers with an ACK. At the end neither is connected, and at both the
-- acknowledgement that the thread of the FIN waits for is set.
pub record Closes (p q : ServicePoint) (host_p host_q sp_p sp_q : ℕ) (raw raw_ack raw_fin : Segment)
    : Type 0 where
  pub fin_p : Segment
  pub fin_q : Segment
  pub ack_p : Segment
  pub ack_q : Segment
  pub closing : ServicePoint
  pub acked_p : ServicePoint
  pub closed_p : ServicePoint
  pub answering : ServicePoint
  pub closed_q : ServicePoint
  pub asks : close_conn p sp_p raw ≡ done tt closing (spawned fin_p 1 ∷ [])
  pub answers :
      (random : ℕ)
      → recv_thread q sp_q (arrived fin_p host_p) random raw_ack raw_fin
        ≡ done tt answering (sent_once host_p (buildsendsegment ack_q 0).1 ∷ spawned fin_q 1 ∷ [])
  pub hears :
      (random : ℕ)
      → recv_thread closing sp_p (bare ack_q host_q) random raw_ack raw_fin ≡ done tt acked_p []
  pub confirms :
      (random : ℕ)
      → recv_thread acked_p sp_p (arrived fin_q host_q) random raw_ack raw_fin
        ≡ done tt closed_p (sent_once host_q (buildsendsegment ack_p 0).1 ∷ [])
  pub hears_last :
      (random : ℕ)
      → recv_thread answering sp_q (bare ack_p host_p) random raw_ack raw_fin ≡ done tt closed_q []
  pub closed : (closed_p.flag_con ≡ 0) × (closed_q.flag_con ≡ 0)
  pub acknowledged :
      (is_set closed_p.acks (u32 (fin_p.seq_num + 1)) ≡ 1)
      × (is_set closed_q.acks (u32 (fin_q.seq_num + 1)) ≡ 1)

-- A connected point that is not held, with a peer at `host`.
abbrev opened : ServicePoint → ℕ → ServicePoint
opened p host = record p { con_held = false; flag_con = 2; dest = host }

opened_lem :
    (p : ServicePoint) (host : ℕ)
    → p.con_held ≡ false
    → p.flag_con ≡ 2
    → p.dest ≡ host
    → opened p host ≡ p
opened_lem p host held flag dest =
    subst (λ (h : ℕ). opened p h ≡ p) dest
      (ap₂ (λ (c : Bool) (n : ℕ). record p { con_held = c; flag_con = n }) (sym held) (sym flag))

-- The acknowledgement of a segment of one byte.
behind-one :
    (seg : Segment) (host : ℕ)
    → seg.seq_num + 1 < max_seq_num
    → behind (arrived seg host) ≡ u32 (seg.seq_num + 1)
behind-one seg host small = omega arith

is_set-behind :
    (p : ServicePoint) (seg : Segment) (host : ℕ)
    → seg.seq_num + 1 < max_seq_num
    → is_set (set_ack p.acks (behind (arrived seg host))) (u32 (seg.seq_num + 1)) ≡ 1
is_set-behind p seg host small =
    let num = u32 (seg.seq_num + 1) in
    rw (behind-one seg host small)
      (is_set-set_ack p.acks num (suc num) (λ e. absurd (omega arith))).0

opened-Closes :
    (p q : ServicePoint) (host_p host_q sp_p sp_q : ℕ) (raw raw_ack raw_fin : Segment)
    → p.seq_num_s + 1 < max_seq_num
    → q.seq_num_s + 1 < max_seq_num
    → Closes (opened p host_q) (opened q host_p) host_p host_q sp_p sp_q raw raw_ack raw_fin
unfolding close_conn recv_thread close_conn_aux send_ack
opened-Closes p q host_p host_q sp_p sp_q raw raw_ack raw_fin small_p small_q =
    let p' = opened p host_q in
    let q' = opened q host_p in
    let fin = fin_segment p' sp_p raw in
    let fin' = fin_segment q' sp_q raw_fin in
    let ack' = ack_segment q' sp_q q'.dest_sp (behind (arrived fin host_p)) raw_ack in
    let closing = record (await_fin p') { flag_con = 3 } in
    let acked = record closing { acks = set_ack closing.acks ack'.ack_num } in
    let ack = ack_segment acked sp_p acked.dest_sp (behind (arrived fin' host_q)) raw_ack in
    let answering = record (await_fin q') { flag_con = 0 } in
    record {
      fin_p = fin;
      fin_q = fin';
      ack_p = ack;
      ack_q = ack';
      closing = closing;
      acked_p = acked;
      closed_p = record acked { flag_con = 0 };
      answering = answering;
      closed_q = record answering { acks = set_ack answering.acks ack.ack_num };
      asks = refl;
      answers = λ random. refl;
      hears = λ random. refl;
      confirms = λ random. refl;
      hears_last = λ random. refl;
      closed = (refl, refl);
      acknowledged =
          (is_set-behind closing fin host_p small_p, is_set-behind answering fin' host_q small_q);
    }

-- Two points that are connected to each other and not held, whose next numbers are not the last
-- before the numbers start again, close their connection by four messages when one of them calls
-- `close_conn`: a FIN, an ACK and a FIN in answer, and an ACK. Then neither is connected, and both
-- threads that repeat a FIN find it acknowledged.
pub close_conn-Closes :
    (p q : ServicePoint) (host_p host_q sp_p sp_q : ℕ) (raw raw_ack raw_fin : Segment)
    → AreConnected p q host_p host_q sp_p sp_q
    → p.con_held ≡ false
    → q.con_held ≡ false
    → p.seq_num_s + 1 < max_seq_num
    → q.seq_num_s + 1 < max_seq_num
    → Closes p q host_p host_q sp_p sp_q raw raw_ack raw_fin
close_conn-Closes p q host_p host_q sp_p sp_q raw raw_ack raw_fin c held_p held_q small_p small_q =
    let here = opened-Closes p q host_p host_q sp_p sp_q raw raw_ack raw_fin small_p small_q in
    let half =
      subst
        (λ (t : ServicePoint).
          Closes t (opened q host_p) host_p host_q sp_p sp_q raw raw_ack raw_fin)
        (opened_lem p host_q held_p c.open_p c.names_p.0) here in
    subst (λ (t : ServicePoint). Closes p t host_p host_q sp_p sp_q raw raw_ack raw_fin)
      (opened_lem q host_p held_q c.open_q c.names_q.0) half
