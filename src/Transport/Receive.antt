-- ===== src/Transport/Receive.antt =====
-- `recv_thread` of transport_layer/transport_layer.c: what a service point does with a segment.
pub mod Window
pub mod Closing
pub mod Opening
pub mod Repeated
pub mod InOrder
pub mod Exchange
use network_layer_full.Base.{
  ℕ, ◌+◌, ◌-◌, ◌%◌, ◌^◌, Bool, true, false, ◌&&◌, List, [], ◌∷◌, ◌++◌, if◌then◌else◌, ltb, leb,
  ◌==◌, u32, sub_size,
}
use network_layer_full.Transport.Segment.{Segment, max_seq_num, transport_header_size}
use network_layer_full.Transport.Segs.{insert_seg, is_there}
use network_layer_full.Transport.Acks.{set_ack}
use network_layer_full.Transport.Point.{
  ServicePoint, Output, Call, done, blocked, fault, window_start, window_end,
}
use network_layer_full.Transport.Connect.{
  Received, sync_thread, sync_ack_thread, send_ack, close_conn_aux, behind,
}

-- A data segment is dropped, acknowledged again, or stored and acknowledged.
pub data Verdict : Type 0 where
  discard again store : Verdict

-- The tests of the sequence number against the window, where the window wraps and where not.
unfoldable pub judge : ServicePoint → ℕ → Verdict
judge p seq =
    if ltb p.prev_seq_num_r p.end_seq_num_r
    then (if leb p.prev_seq_num_r seq && leb seq p.end_seq_num_r
        then (if ltb seq p.seq_num_r then again else store)
        else discard)
    else (if ltb seq p.prev_seq_num_r && ltb p.end_seq_num_r seq
        then discard
        else (if ltb p.prev_seq_num_r p.seq_num_r
            then (if ltb seq p.seq_num_r then again else store)
            else (if leb p.seq_num_r seq then store else again)))

-- The segment goes into the lists, and the window moves with what `insert_seg` returns.
unfoldable pub take_in : ServicePoint → Received → ServicePoint
take_in p recv =
    let out =
      insert_seg p.segs p.segs_aux recv.segment (sub_size recv.size transport_header_size)
        p.seq_num_r in
    let r = u32 (p.seq_num_r + out.ret) % max_seq_num in
    record p {
      segs = out.lst;
      segs_aux = out.lst_aux;
      seq_num_r = r;
      end_seq_num_r = window_end r p.window_size;
      prev_seq_num_r = window_start r p.window_size;
    }

-- A segment that came too early, and that the list of those already has, is freed by
-- `insert_seg`.
unfoldable pub is_freed : ServicePoint → Segment → Bool
unfolding is_there
is_freed p seg = if seg.seq_num == p.seq_num_r then false else is_there p.segs_aux seg.seq_num

-- After `insert_seg` the ACK is built from the fields of the segment, freed or not.
unfoldable pub on_verdict : ServicePoint → ℕ → Received → Segment → Verdict → Call (Unit {0})
unfolding take_in is_freed
on_verdict p sp recv raw discard = done tt p []
on_verdict p sp recv raw again = done tt p (send_ack p sp p.dest_sp (behind recv) raw ∷ [])
on_verdict p sp recv raw store =
    let p' = take_in p recv in
    if is_freed p recv.segment
    then fault
    else done tt p' (send_ack p' sp p'.dest_sp (behind recv) raw ∷ [])

-- Data. Without a connection the branch leaves `mutex_con` locked.
unfoldable pub on_data : ServicePoint → ℕ → Received → Segment → Call (Unit {0})
unfolding on_verdict judge
on_data p sp recv raw =
    if p.con_held
    then blocked
    else (if p.flag_con == 2
        then on_verdict p sp recv raw (judge p recv.segment.seq_num)
        else done tt (record p { con_held = true }) [])

-- One turn of the loop, by the flags of the segment; SYNC and SYNC+ACK get threads of their own,
-- taken here to run at once. Other flags are ignored.
unfoldable pub recv_thread : ServicePoint → ℕ → Received → ℕ → Segment → Segment → Call (Unit {0})
unfolding on_data
recv_thread p sp recv random raw raw_fin =
    let (closed, outputs) = close_conn_aux p sp recv raw raw_fin in
    if recv.segment.flags == 0
    then on_data p sp recv raw
    else (if recv.segment.flags == 1
        then sync_thread p recv random raw
        else (if recv.segment.flags == 2
            then sync_ack_thread p recv raw
            else (if recv.segment.flags == 3
                then done tt (record p { acks = set_ack p.acks recv.segment.ack_num }) []
                else (if recv.segment.flags == 4
                    then (if p.con_held then blocked else done tt closed outputs)
                    else done tt p []))))

-- A segment that arrives, with what the turn that takes it needs.
abbrev pub Arriving : Type 0
Arriving = Received × ℕ × Segment × Segment

abbrev pub and_call : List Output → Call (Unit {0}) → Call (Unit {0})
and_call now blocked = blocked
and_call now fault = fault
and_call now (done tt p later) = done tt p (now ++ later)

abbrev pub and_turns : Call (Unit {0}) → (ServicePoint → Call (Unit {0})) → Call (Unit {0})
and_turns blocked rest = blocked
and_turns fault rest = fault
and_turns (done tt p out) rest = and_call out (rest p)

-- The turns of `recv_thread` for one segment after the other.
unfoldable pub recv_turns : ℕ → List Arriving → ServicePoint → Call (Unit {0})
unfolding recv_thread
recv_turns sp [] p = done tt p []
recv_turns sp ((recv, random, raw, raw_fin) ∷ more) p =
    and_turns (recv_thread p sp recv random raw raw_fin) (recv_turns sp more)
