-- ===== src/Transport/Segs.antt =====
-- transport_layer/segment/seg_lst.c: the segments ready for the application, and those that came
-- too early.
pub mod Stream
pub mod Reading
use network_layer_full.Base.{
  ℕ, zero, suc, ◌+◌, ◌-◌, ◌%◌, ◌^◌, Bool, true, false, Option, none, some, List, [], ◌∷◌, ◌++◌,
  if◌then◌else◌, leb, ◌==◌, ◌>>=◌, length, take, drop, u32,
}
use network_layer_full.Transport.Segment.{Segment, max_seq_num}

-- `seglst_t`
pub record Entry : Type 0 where
  pub segm : Segment
  pub size : ℕ

-- An entry that the walk passes stays.
abbrev pub keep : Entry → Option (Entry × List Entry) → Option (Entry × List Entry)
keep e none = none
keep e (some (f, fs)) = some (f, e ∷ fs)

-- The first entry with that sequence number, and the list without it.
unfoldable pub is_next : List Entry → ℕ → Option (Entry × List Entry)
is_next [] base = none
is_next (e ∷ es) base =
    let rest = keep e (is_next es base) in if e.segm.seq_num == base then some (e, es) else rest

-- Appends, unless the sequence number is there.
unfoldable pub insert_seg_lst : List Entry → Segment → ℕ → List Entry
insert_seg_lst [] seg size = record { segm = seg; size = size } ∷ []
insert_seg_lst (e ∷ es) seg size =
    if e.segm.seq_num == seg.seq_num then e ∷ es else e ∷ insert_seg_lst es seg size

-- Where an entry has the sequence number already, `insert_seg_lst` frees the new segment.
unfoldable pub is_there : List Entry → ℕ → Bool
is_there [] seq_num = false
is_there (e ∷ es) seq_num = if e.segm.seq_num == seq_num then true else is_there es seq_num

-- What `insert_seg` leaves: its return value and the two lists.
pub record Outcome : Type 0 where
  pub ret : ℕ
  pub lst : List Entry
  pub lst_aux : List Entry

-- A round of the loop that moves entries over, with the rounds after it.
unfoldable pub move :
    (List Entry → List Entry → ℕ → ℕ → Outcome)
    → List Entry
    → List Entry
    → ℕ
    → ℕ
    → Option (Entry × List Entry)
    → Outcome
move more lst lst_aux count ret none = record { ret = ret; lst = lst; lst_aux = lst_aux }
move more lst lst_aux count ret (some (e, rest)) =
    more (lst ++ (e ∷ [])) rest ((count + e.size) % max_seq_num) (u32 (ret + e.size))

-- The loop, while the next entry is there. Each round takes one out, so as many rounds as there
-- are entries, and one, are enough; with no fuel left it stops.
unfoldable pub drain : ℕ → List Entry → List Entry → ℕ → ℕ → Outcome
unfolding move is_next
drain zero lst lst_aux count ret = record { ret = ret; lst = lst; lst_aux = lst_aux }
drain (suc fuel) lst lst_aux count ret =
    move (drain fuel) lst lst_aux count ret (is_next lst_aux count)

-- Both branches on `*lst` do the same: append at the end of the list.
unfoldable pub insert_seg : List Entry → List Entry → Segment → ℕ → ℕ → Outcome
unfolding drain insert_seg_lst
insert_seg lst lst_aux seg size base =
    if seg.seq_num == base
    then drain (suc (length lst_aux)) (lst ++ (record { segm = seg; size = size } ∷ [])) lst_aux
        ((base + size) % max_seq_num) (u32 size)
    else record { ret = 0; lst = lst; lst_aux = insert_seg_lst lst_aux seg size }

-- The bytes copied to the application's buffer of `size` bytes, and the list that is left; the
-- return value is their number.
unfoldable pub recv_seg : List Entry → ℕ → List ℕ × List Entry
recv_seg [] size = ([], [])
recv_seg (e ∷ es) size =
    let (more, rest) = recv_seg es (size - e.size) in
    if size == 0
    then ([], e ∷ es)
    else (if leb e.size size then (take e.size e.segm.payload ++ more, rest) else (
      take size e.segm.payload,
      record {
        segm = record (e.segm) { payload = take (e.size - size) (drop size e.segm.payload) };
        size = e.size - size;
      }
          ∷ es,
    ))

-- The part of a service point that receives: `recv_thread` adds what `insert_seg` returns to the
-- next expected sequence number, and `recv_point` reads.
pub record Receiver : Type 0 where
  pub seq_num_r : ℕ
  pub segs : List Entry
  pub segs_aux : List Entry

unfoldable pub arrive : Receiver → Segment → ℕ → Receiver
unfolding insert_seg
arrive s seg size =
    let out = insert_seg s.segs s.segs_aux seg size s.seq_num_r in
    record {
      seq_num_r = u32 (s.seq_num_r + out.ret) % max_seq_num;
      segs = out.lst;
      segs_aux = out.lst_aux;
    }

unfoldable pub read : Receiver → ℕ → List ℕ × Receiver
unfolding recv_seg
read s size = let (bytes, rest) = recv_seg s.segs size in (bytes, record s { segs = rest })
