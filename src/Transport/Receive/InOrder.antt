-- ===== src/Transport/Receive/InOrder.antt =====
-- The turn for the segment that is expected next, and the turn that sends it: `recv_thread` and
-- `send_thread` of transport_layer/transport_layer.c.
-- `recv_thread` of transport_layer/transport_layer.c.
use network_layer_full.Base.{
  ℕ, ◌+◌, ◌-◌, ◌%◌, ◌^◌, ◌≤◌, ◌<◌, ◌≡◌, ◌≢◌, refl, sym, subst, ◌∙◌, Bool, true, false, inl, inr,
  Bool-cases, List, [], ◌∷◌, ◌++◌, arith, ◌==◌, eq→==, ne→not_==, u32, some, sub_size,
}
use network_layer_full.Transport.Acks.{Ack, set_ack}
use network_layer_full.Transport.Connect.{Received, send_ack, behind}
use network_layer_full.Transport.Connect.Handshake.{AreConnected}
use network_layer_full.Transport.Point.{ServicePoint, spawned, done}
use network_layer_full.Transport.Receive.{
  recv_thread, on_data, on_verdict, is_freed, store, again, judge, take_in,
}
use network_layer_full.Transport.Receive.Closing.{bare}
use network_layer_full.Transport.Segment.{Segment, max_seq_num, transport_header_size}
use network_layer_full.Transport.Segs.{Entry, insert_seg, drain, is_next}
use network_layer_full.Transport.Sender.{
  Sender, sending, send_thread, turn_of, send_next, next_segment, cut_size, after_segment, advance,
  go_on,
}

-- The next number lies in the window, and neither end of the window has gone round.
pub record IsInWindow (q : ServicePoint) : Type 0 where
  pub room : 0 < q.window_size
  pub behind_it : q.window_size ≤ q.seq_num_r
  pub ahead : q.seq_num_r + q.window_size < max_seq_num
  pub from_start : q.prev_seq_num_r ≤ q.seq_num_r
  pub to_end : q.seq_num_r ≤ q.end_seq_num_r
  pub ends : q.prev_seq_num_r < q.end_seq_num_r

pub judge-next : (q : ServicePoint) → IsInWindow q → judge q q.seq_num_r ≡ store
unfolding judge
judge-next q v = ground (arith, v.from_start, v.to_end, v.ends)

-- The expected segment while none has come too early.
insert_seg-next :
    (q : ServicePoint) (seg : Segment) (size : ℕ)
    → q.segs_aux ≡ []
    → seg.seq_num ≡ q.seq_num_r
    → insert_seg q.segs q.segs_aux seg size q.seq_num_r ≡ record {
      ret = u32 size;
      lst = q.segs ++ (record { segm = seg; size = size } ∷ []);
      lst_aux = [];
    }
unfolding insert_seg drain is_next
insert_seg-next q seg size early numbered =
    let here : (seg.seq_num == q.seq_num_r) ≡ true = eq→== seg.seq_num q.seq_num_r numbered in
    rw (here, early)

pub take_in-next :
    (q : ServicePoint) (seg : Segment) (size host : ℕ)
    → q.segs_aux ≡ []
    → seg.seq_num ≡ q.seq_num_r
    → size < 2 ^ 16
    → q.seq_num_r + size < max_seq_num
    → take_in q (record { segment = seg; size = size + transport_header_size; src = host })
      ≡ record q {
        segs = q.segs ++ (record { segm = seg; size = size } ∷ []);
        segs_aux = [];
        seq_num_r = q.seq_num_r + size;
        end_seq_num_r = u32 (q.seq_num_r + size + q.window_size) % max_seq_num;
        prev_seq_num_r = (q.seq_num_r + size + (max_seq_num - q.window_size)) % max_seq_num;
      }
unfolding take_in
take_in-next q seg size host early numbered small low =
    let bytes : sub_size (size + transport_header_size) transport_header_size ≡ size =
      omega arith in
    let r : u32 (q.seq_num_r + u32 size) % max_seq_num ≡ q.seq_num_r + size = omega arith in
    rw (bytes, insert_seg-next q seg size early numbered, r)

pub recv_thread-next :
    (q : ServicePoint) (sp : ℕ) (recv : Received) (random : ℕ) (raw raw_fin : Segment)
    → recv.segment.flags ≡ 0
    → q.con_held ≡ false
    → q.flag_con ≡ 2
    → judge q recv.segment.seq_num ≡ store
    → recv.segment.seq_num ≡ q.seq_num_r
    → recv_thread q sp recv random raw raw_fin
      ≡ done tt
          (take_in q recv)
          (send_ack (take_in q recv) sp (take_in q recv).dest_sp (behind recv) raw ∷ [])
unfolding recv_thread on_data on_verdict is_freed
recv_thread-next q sp recv random raw raw_fin is_data free conn verdict numbered =
    let open_here : (q.flag_con == 2) ≡ true = eq→== q.flag_con 2 conn in
    let plain : (recv.segment.flags == 0) ≡ true = eq→== recv.segment.flags 0 is_data in
    let expected : (recv.segment.seq_num == q.seq_num_r) ≡ true =
      eq→== recv.segment.seq_num q.seq_num_r numbered in
    simp (plain, verdict, free, open_here, expected) refl

pub recv_thread-ack :
    (p : ServicePoint) (sp : ℕ) (ack : Segment) (host random : ℕ) (raw raw_fin : Segment)
    → ack.flags ≡ 3
    → recv_thread p sp (bare ack host) random raw raw_fin
      ≡ done tt (record p { acks = set_ack p.acks ack.ack_num }) []
unfolding recv_thread
recv_thread-ack p sp ack host random raw raw_fin e = rw e

-- The segment leaves the buffer.
pub advance-point :
    (s : Sender) → (b : Bool) × ((advance s).point ≡ record (s.point) { buffer_full = b })
unfolding advance go_on
advance-point s = elim (Bool-cases (s.window_ptr == 0)) [
  | inl full ↦ rw full (s.point.buffer_full, refl)
  | inr room ↦ elim (Bool-cases (s.left == 0)) [
    | inl last ↦ rw (room, last) (false, refl)
    | inr more ↦ rw (room, more) (s.point.buffer_full, refl)
  ]
]

pub send_thread-next :
    (s : Sender) (raw : Segment)
    → s.phase ≡ sending
    → s.point.window_size ≢ 0
    → send_thread s raw
      ≡ some (spawned (next_segment s raw) (cut_size s) ∷ [], advance (after_segment s))
unfolding send_thread turn_of send_next
send_thread-next s raw phase window =
    let some_window : (s.point.window_size == 0) ≡ false = ne→not_== s.point.window_size 0 window in
    rw (phase, some_window)

-- The same connection, as one of its ends sees it.
pub record SameEnds (p p' : ServicePoint) : Type 0 where
  pub flag_con : p'.flag_con ≡ p.flag_con
  pub window_size : p'.window_size ≡ p.window_size
  pub dest : p'.dest ≡ p.dest
  pub dest_sp : p'.dest_sp ≡ p.dest_sp

pub after-SameEnds : (s : Sender) → SameEnds s.point (advance (after_segment s)).point
unfolding after_segment
after-SameEnds s =
    subst (SameEnds s.point) (sym (advance-point (after_segment s)).1)
      (record { flag_con = refl; window_size = refl; dest = refl; dest_sp = refl })

pub take_in-SameEnds : (q : ServicePoint) (recv : Received) → SameEnds q (take_in q recv)
unfolding take_in
take_in-SameEnds q recv = record {
  flag_con = refl;
  window_size = refl;
  dest = refl;
  dest_sp = refl;
}

-- The acknowledgements of `p` do not matter.
pub next-AreConnected :
    (p p' q q' : ServicePoint) (host_p host_q sp_p sp_q : ℕ) {acks : List Ack}
    → AreConnected p q host_p host_q sp_p sp_q
    → SameEnds p p'
    → SameEnds q q'
    → p'.seq_num_r ≡ p.seq_num_r
    → q'.seq_num_s ≡ q.seq_num_s
    → q'.seq_num_r ≡ p'.seq_num_s
    → AreConnected (record p' { acks = acks }) q' host_p host_q sp_p sp_q
next-AreConnected p p' q q' host_p host_q sp_p sp_q c same_p same_q same_r same_s on = record {
  open_p = same_p.flag_con ∙ c.open_p;
  open_q = same_q.flag_con ∙ c.open_q;
  p_to_q = on;
  q_to_p = same_r ∙ c.q_to_p ∙ sym same_s;
  windows = same_p.window_size ∙ c.windows ∙ sym same_q.window_size;
  names_p = (same_p.dest ∙ c.names_p.0, same_p.dest_sp ∙ c.names_p.1);
  names_q = (same_q.dest ∙ c.names_q.0, same_q.dest_sp ∙ c.names_q.1);
}

pub moved-IsInWindow :
    (q : ServicePoint) (n : ℕ) {segs : List Entry}
    → IsInWindow q
    → q.seq_num_r + n + q.window_size < max_seq_num
    → IsInWindow (record q {
      segs = segs;
      segs_aux = [];
      seq_num_r = q.seq_num_r + n;
      end_seq_num_r = u32 (q.seq_num_r + n + q.window_size) % max_seq_num;
      prev_seq_num_r = (q.seq_num_r + n + (max_seq_num - q.window_size)) % max_seq_num;
    })
moved-IsInWindow q n v low = record {
  room = v.room;
  behind_it = omega (arith, v.behind_it);
  ahead = low;
  from_start = omega (arith, v.behind_it);
  to_end = omega arith;
  ends = omega (arith, v.behind_it, v.room);
}

-- The segment behind which the window has moved.
pub judge-repeated :
    (q : ServicePoint) (n : ℕ) (segs : List Entry)
    → IsInWindow q
    → 0 < n
    → n ≤ q.window_size
    → q.seq_num_r + n + q.window_size < max_seq_num
    → judge
        (record q {
          segs = segs;
          segs_aux = [];
          seq_num_r = q.seq_num_r + n;
          end_seq_num_r = u32 (q.seq_num_r + n + q.window_size) % max_seq_num;
          prev_seq_num_r = (q.seq_num_r + n + (max_seq_num - q.window_size)) % max_seq_num;
        })
        q.seq_num_r
      ≡ again
unfolding judge
judge-repeated q n segs v pos below low = ground (arith, v.behind_it, v.room)

pub recv_thread-again :
    (q : ServicePoint) (sp : ℕ) (recv : Received) (random : ℕ) (raw raw_fin : Segment)
    → recv.segment.flags ≡ 0
    → q.con_held ≡ false
    → q.flag_con ≡ 2
    → judge q recv.segment.seq_num ≡ again
    → recv_thread q sp recv random raw raw_fin
      ≡ done tt q (send_ack q sp q.dest_sp (behind recv) raw ∷ [])
unfolding recv_thread on_data on_verdict
recv_thread-again q sp recv random raw raw_fin is_data free conn verdict =
    let open_here : (q.flag_con == 2) ≡ true = eq→== q.flag_con 2 conn in
    let plain : (recv.segment.flags == 0) ≡ true = eq→== recv.segment.flags 0 is_data in
    simp (plain, verdict, free, open_here) refl
