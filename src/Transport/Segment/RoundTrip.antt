-- ===== src/Transport/Segment/RoundTrip.antt =====
-- What a segment carries is read back.
use network_layer_full.Base.{
  ℕ, ◌+◌, ◌-◌, ◌^◌, ◌<◌, ◌≡◌, some, ◌++◌, append_assoc, arith, if◌then◌else◌, ltb, length, take,
  take-all, le_bytes, read_le-le_bytes, read_data-sized, read_le-le_bytes_last,
}
use network_layer_full.Checksum.{checksum}
use network_layer_full.Checksum.Laws.{checksum-lt}
use network_layer_full.Transport.Segment.{
  Segment, transport_header_size, segment_head, buildsendsegment, buildrecvsegment,
}

-- The fields fit their widths, and the payload has `size` bytes.
pub record IsSegment (s : Segment) (size : ℕ) : Type 0 where
  pub src_in : s.src < 2 ^ 16
  pub dest_in : s.dest < 2 ^ 16
  pub seq_in : s.seq_num < 2 ^ 32
  pub ack_in : s.ack_num < 2 ^ 32
  pub flags_in : s.flags < 2 ^ 8
  pub window_in : s.window_size < 2 ^ 16
  pub sized : length s.payload ≡ size

-- `buildrecvsegment` reads from the bytes that `buildsendsegment` writes the same segment, with
-- the checksum that was computed, if the fields fit their widths and the payload has the size
-- that is given.
pub buildrecvsegment-buildsendsegment :
    (s : Segment) (size : ℕ)
    → IsSegment s size
    → buildrecvsegment (buildsendsegment s size).1 (size + transport_header_size)
      ≡ some (buildsendsegment s size).0
unfolding buildrecvsegment buildsendsegment segment_head
buildrecvsegment-buildsendsegment s size v =
    let whole : take size s.payload ≡ s.payload =
      take-all size s.payload (omega (arith, v.sized)) in
    let small' : checksum (
          le_bytes 2 s.src
          ++ (le_bytes 2 s.dest
              ++ (le_bytes 4 s.seq_num
                  ++ (le_bytes 4 s.ack_num
                      ++ (le_bytes 1 s.flags ++ (le_bytes 2 s.window_size ++ s.payload))))))
        < 2 ^ 16 =
      checksum-lt _ in
    let n : (if ltb transport_header_size (size + transport_header_size)
          then size + transport_header_size - transport_header_size
          else 0)
        ≡ size =
      ground arith in
    rw (
      n,
      append_assoc,
      append_assoc,
      append_assoc,
      append_assoc,
      append_assoc,
      append_assoc,
      read_le-le_bytes 2 s.src _ v.src_in,
      read_le-le_bytes 2 s.dest _ v.dest_in,
      read_le-le_bytes 4 s.seq_num _ v.seq_in,
      read_le-le_bytes 4 s.ack_num _ v.ack_in,
      read_le-le_bytes 1 s.flags _ v.flags_in,
      read_le-le_bytes 2 s.window_size _ v.window_in,
      whole,
      read_data-sized size s.payload _ v.sized,
      read_le-le_bytes_last 2 _ small',
    )
