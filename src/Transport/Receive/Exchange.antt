-- ===== src/Transport/Receive/Exchange.antt =====
-- A data segment and its acknowledgement between two connected service points: `send_thread` and
-- `recv_thread` of transport_layer/transport_layer.c.
use network_layer_full.Base.{
  Option, ℕ, suc, ◌+◌, ◌-◌, ◌≤◌, ◌%◌, ◌^◌, ◌<◌, ◌≡◌, refl, sym, ap, subst, ◌∙◌, true, false, List,
  [], ◌∷◌, ◌++◌, append-nil, arith, take, take-all, length-take, drop, u32, some,
}
use network_layer_full.Transport.Acks.{is_set, set_ack}
use network_layer_full.Transport.Acks.Laws.{is_set-set_ack}
use network_layer_full.Transport.Connect.{Received, ack_segment, send_ack, behind}
use network_layer_full.Transport.Connect.Handshake.{AreConnected}
use network_layer_full.Transport.Point.{ServicePoint, spawned, sent_once, done}
use network_layer_full.Transport.Receive.{recv_thread, again, store, judge, take_in}
use network_layer_full.Transport.Receive.Closing.{bare}
use network_layer_full.Transport.Segment.{
  Segment, max_seq_num, transport_header_size, buildsendsegment,
}
use network_layer_full.Transport.Segs.Stream.{content, content-append}
use network_layer_full.Transport.Sender.{
  Sender, sending, send_thread, next_segment, cut_size, after_segment, advance,
}
use network_layer_full.Transport.Wire.{seg_send_thread}
use network_layer_full.Transport.Wire.Repeat.{seg_send_thread-until}
use network_layer_full.Transport.Receive.InOrder.{
  IsInWindow, judge-next, take_in-next, recv_thread-next, recv_thread-ack, recv_thread-again,
  judge-repeated, advance-point, send_thread-next, after-SameEnds, take_in-SameEnds,
  next-AreConnected, moved-IsInWindow,
}

-- The exchange: the thread of `s` hands on the next segment, of `cut_size s` bytes; the point `q`
-- stores it and sends an ACK, and answers a copy that comes after it with the same ACK and no
-- change; and the point of the thread takes in the ACK, so that the thread that repeats the segment,
-- which looks at the acknowledgements after that, has sent it once and ends. The two are still
-- connected, what can be read at `q` has grown by the bytes of the segment, and `q` expects the
-- next number.
pub record Exchanged (s : Sender) (q : ServicePoint) (host_p host_q sp_q : ℕ)
    (raw raw_ack raw_fin : Segment) : Type 0 where
  pub ack : Segment
  pub sender : Sender
  pub stored : ServicePoint
  pub acked : ServicePoint
  pub sends : send_thread s raw ≡ some (spawned (next_segment s raw) (cut_size s) ∷ [], sender)
  pub stores :
      (random : ℕ)
      → recv_thread q sp_q
          (record {
            segment = next_segment s raw;
            size = cut_size s + transport_header_size;
            src = host_p;
          })
          random
          raw_ack
          raw_fin
        ≡ done tt stored (sent_once host_p (buildsendsegment ack 0).1 ∷ [])
  pub repeats :
      (random : ℕ)
      → recv_thread stored sp_q
          (record {
            segment = next_segment s raw;
            size = cut_size s + transport_header_size;
            src = host_p;
          })
          random
          raw_ack
          raw_fin
        ≡ done tt stored (sent_once host_p (buildsendsegment ack 0).1 ∷ [])
  pub hears :
      (random : ℕ)
      → recv_thread sender.point s.sp (bare ack host_q) random raw_ack raw_fin ≡ done tt acked []
  pub connected : AreConnected acked stored host_p host_q s.sp sp_q
  pub ends :
      (later : List (Option ServicePoint))
      → seg_send_thread (next_segment s raw) (cut_size s) (some sender.point) (some acked ∷ later)
        ≡ (
          sent_once sender.point.dest (buildsendsegment (next_segment s raw) (cut_size s)).1 ∷ [],
          true,
        )
  pub grown :
      content stored.segs ≡ content q.segs ++ take (cut_size s) (drop s.send_ptr s.point.send_buff)
  pub in_order : stored.segs_aux ≡ []
  pub in_window : IsInWindow stored

take-take : (n : ℕ) (bytes : List ℕ) → take n (take n bytes) ≡ take n bytes
take-take n bytes = take-all n (take n bytes) (omega (arith, length-take n bytes))

-- A sender that is about to send the next segment of its buffer, of between one byte and as many
-- as the window has, at a point that is connected to `q`: neither is held, `q` holds no segment that
-- came too early, and the numbers of the segment and of the windows before and behind it stay below
-- the last.
pub record IsExchange (s : Sender) (q : ServicePoint) (host_p host_q sp_q : ℕ) : Type 0 where
  pub both : AreConnected s.point q host_p host_q s.sp sp_q
  pub free_p : s.point.con_held ≡ false
  pub free_q : q.con_held ≡ false
  pub phase : s.phase ≡ sending
  pub early : q.segs_aux ≡ []
  pub window : IsInWindow q
  pub small : cut_size s < 2 ^ 16
  pub some_bytes : 0 < cut_size s
  pub below : cut_size s ≤ q.window_size
  pub low : q.seq_num_r + cut_size s + q.window_size < max_seq_num

-- A segment that a sending thread is about to send to a point that it is connected to, with no
-- number past the last (see `IsExchange`), is stored there and acknowledged, and a copy of it is
-- acknowledged again and changes nothing. After the ACK the two points are connected as before,
-- each expecting the number that the other sends next, and the bytes of the segment can be read at
-- the other point behind those that were there (see `Exchanged`).
pub send_thread-Exchanged :
    (s : Sender) (q : ServicePoint) (host_p host_q sp_q : ℕ) (raw raw_ack raw_fin : Segment)
    → IsExchange s q host_p host_q sp_q
    → Exchanged s q host_p host_q sp_q raw raw_ack raw_fin
unfolding after_segment send_ack
send_thread-Exchanged s q host_p host_q sp_q raw raw_ack raw_fin x =
    let n = cut_size s in
    let c = x.both in
    let seg = next_segment s raw in
    let recv : Received = record {
      segment = seg;
      size = n + transport_header_size;
      src = host_p;
    } in
    let numbered : seg.seq_num ≡ q.seq_num_r = sym c.p_to_q in
    let e = (advance-point (after_segment s)).1 in
    let stored = take_in q recv in
    let is_stored = take_in-next q seg n host_p x.early numbered x.small (omega (arith, x.low)) in
    let moved_on : ServicePoint = record q {
      segs = q.segs ++ (record { segm = seg; size = n } ∷ []);
      segs_aux = [];
      seq_num_r = q.seq_num_r + n;
      end_seq_num_r = u32 (q.seq_num_r + n + q.window_size) % max_seq_num;
      prev_seq_num_r = (q.seq_num_r + n + (max_seq_num - q.window_size)) % max_seq_num;
    } in
    let ack = ack_segment stored sp_q stored.dest_sp (behind recv) raw_ack in
    let after = (advance (after_segment s)).point in
    let acked : ServicePoint = record after { acks = set_ack after.acks ack.ack_num } in
    let bytes = take n (drop s.send_ptr s.point.send_buff) in
    let verdict : judge q seg.seq_num ≡ store =
      subst (λ (k : ℕ). judge q k ≡ store) (sym numbered) (judge-next q x.window) in
    let turn = λ (random : ℕ).
      recv_thread-next q sp_q recv random raw_ack raw_fin refl x.free_q c.open_q verdict numbered in
    let to_p : stored.dest ≡ host_p = (take_in-SameEnds q recv).dest ∙ c.names_q.0 in
    let num : behind recv ≡ u32 (s.point.seq_num_s + n) = omega (arith, c.p_to_q, x.low, x.small) in
    let moved : q.seq_num_r + n ≡ u32 (s.point.seq_num_s + n) % max_seq_num =
      omega (arith, c.p_to_q, x.low) in
    let acknowledged : is_set acked.acks (u32 (s.point.seq_num_s + n)) ≡ 1 =
      ap (λ (k : ℕ). is_set (set_ack after.acks k) (u32 (s.point.seq_num_s + n))) num
      ∙ (is_set-set_ack after.acks (u32 (s.point.seq_num_s + n)) (suc (u32 (s.point.seq_num_s + n)))
          (λ k. absurd (omega arith))).0 in
    record {
      ack = ack;
      sender = advance (after_segment s);
      stored = stored;
      acked = acked;
      sends =
          send_thread-next s raw x.phase (λ w. absurd (omega (arith, c.windows, x.window.room)));
      stores = λ random.
          turn random
          ∙ ap (λ (h : ℕ). done tt stored (sent_once h (buildsendsegment ack 0).1 ∷ [])) to_p;
      repeats = λ random.
          recv_thread-again stored sp_q recv random raw_ack raw_fin refl
            (ap (λ (t : ServicePoint). t.con_held) is_stored ∙ x.free_q)
            ((take_in-SameEnds q recv).flag_con ∙ c.open_q)
            (subst (λ (t : ServicePoint). judge t seg.seq_num ≡ again) (sym is_stored)
              (subst (λ (k : ℕ). judge moved_on k ≡ again) (sym numbered)
                (judge-repeated q n moved_on.segs x.window x.some_bytes x.below x.low)))
          ∙ ap (λ (h : ℕ). done tt stored (sent_once h (buildsendsegment ack 0).1 ∷ [])) to_p;
      hears = λ random. recv_thread-ack after s.sp ack host_q random raw_ack raw_fin refl;
      connected =
          next-AreConnected s.point after q stored host_p host_q s.sp sp_q c (after-SameEnds s)
            (take_in-SameEnds q recv) (ap (λ (t : ServicePoint). t.seq_num_r) e)
            (ap (λ (t : ServicePoint). t.seq_num_s) is_stored)
            (ap (λ (t : ServicePoint). t.seq_num_r) is_stored
              ∙ moved
              ∙ sym (ap (λ (t : ServicePoint). t.seq_num_s) e));
      ends = λ later. seg_send_thread-until seg n after [] acked later tt acknowledged;
      grown =
          ap (λ (t : ServicePoint). content t.segs) is_stored
          ∙ content-append q.segs (record { segm = seg; size = n } ∷ [])
          ∙ ap (λ (t : List ℕ). content q.segs ++ t)
              (unfold content in
                append-nil (take n bytes) ∙ take-take n (drop s.send_ptr s.point.send_buff));
      in_order = ap (λ (t : ServicePoint). t.segs_aux) is_stored;
      in_window = subst IsInWindow (sym is_stored) (moved-IsInWindow q n x.window x.low);
    }
