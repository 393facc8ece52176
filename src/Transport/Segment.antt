-- ===== src/Transport/Segment.antt =====
-- `segment_t` and its bytes: transport_layer/transport_layer.h, `buildsendsegment` and
-- `buildrecvsegment` of transport_layer/transport_layer.c.
pub mod RoundTrip
use network_layer_full.Base.{
  ℕ, ◌-◌, Option, some, List, ◌++◌, if◌then◌else◌, ltb, ◌>>=◌, take, le_bytes, read_le, read_data,
}
use network_layer_full.Checksum.{checksum}

-- The field `data` is `payload`.
pub record Segment : Type 0 where
  pub src : ℕ
  pub dest : ℕ
  pub seq_num : ℕ
  pub ack_num : ℕ
  pub flags : ℕ
  pub window_size : ℕ
  pub payload : List ℕ
  pub checksum : ℕ

-- MAX_SEQ_NUM
abbrev pub max_seq_num : ℕ
max_seq_num = 4294967295

-- TRANSPORT_HEADER_SIZE, the two checksum bytes included
abbrev pub transport_header_size : ℕ
transport_header_size = 17

-- The bytes before the checksum, for a payload of `size` bytes.
unfoldable pub segment_head : Segment → ℕ → List ℕ
segment_head s size =
    le_bytes 2 s.src
    ++ (le_bytes 2 s.dest
        ++ (le_bytes 4 s.seq_num
            ++ (le_bytes 4 s.ack_num
                ++ (le_bytes 1 s.flags ++ (le_bytes 2 s.window_size ++ take size s.payload)))))

unfoldable pub buildsendsegment : Segment → ℕ → Segment × List ℕ
unfolding segment_head
buildsendsegment s size =
    let sum = checksum (segment_head s size) in
    (record s { checksum = sum }, segment_head s size ++ le_bytes 2 sum)

-- `size` is that of the whole segment; `none` is a read past the end of the buffer. Without a
-- payload the field `data` stays unset.
unfoldable pub buildrecvsegment : List ℕ → ℕ → Option Segment
buildrecvsegment buf size = do
  (src, r) ← read_le 2 buf
  (dest, r) ← read_le 2 r
  (seq_num, r) ← read_le 4 r
  (ack_num, r) ← read_le 4 r
  (flags, r) ← read_le 1 r
  (window_size, r) ← read_le 2 r
  (payload, r) ←
      read_data (if ltb transport_header_size size then size - transport_header_size else 0) r
  (sum, r) ← read_le 2 r
  some (record {
    src = src;
    dest = dest;
    seq_num = seq_num;
    ack_num = ack_num;
    flags = flags;
    window_size = window_size;
    payload = payload;
    checksum = sum;
  })
