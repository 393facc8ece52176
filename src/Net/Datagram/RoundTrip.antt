-- ===== src/Net/Datagram/RoundTrip.antt =====
-- What a datagram carries is read back.
use network_layer_full.Base.{
  ◌<◌, ◌^◌, ◌≡◌, some, ◌++◌, append_assoc, arith, length, take, take-all, le_bytes,
  read_le-le_bytes, read_data-sized, read_le-le_bytes_last,
}
use network_layer_full.Checksum.{checksum}
use network_layer_full.Checksum.Laws.{checksum-lt}
use network_layer_full.Net.Datagram.{Datagram, datagram_head, buildsenddatagram, buildrecvdatagram}

-- The fields fit their widths, and `size` is the payload's.
pub record IsDatagram (d : Datagram) : Type 0 where
  pub size_in : d.size < 2 ^ 64
  pub id_in : d.id < 2 ^ 16
  pub frag_in : d.frag < 2 ^ 16
  pub protocol_in : d.protocol < 2 ^ 8
  pub ttl_in : d.ttl < 2 ^ 8
  pub dest_in : d.dest < 2 ^ 16
  pub src_in : d.src < 2 ^ 16
  pub sized : length d.payload ≡ d.size

-- `buildrecvdatagram` reads from the bytes that `buildsenddatagram` writes the same datagram, with
-- the checksum that was computed, if the fields fit their widths and `size` is the payload's.
pub buildrecvdatagram-buildsenddatagram :
    (d : Datagram)
    → IsDatagram d
    → buildrecvdatagram (buildsenddatagram d).1 ≡ some (buildsenddatagram d).0
unfolding buildrecvdatagram buildsenddatagram datagram_head
buildrecvdatagram-buildsenddatagram d v =
    let whole : take d.size d.payload ≡ d.payload =
      take-all d.size d.payload (omega (arith, v.sized)) in
    let small : checksum (
          le_bytes 8 d.size
          ++ (le_bytes 2 d.id
              ++ (le_bytes 2 d.frag
                  ++ (le_bytes 1 d.protocol
                      ++ (le_bytes 1 d.ttl
                          ++ (le_bytes 2 d.dest ++ (le_bytes 2 d.src ++ d.payload)))))))
        < 2 ^ 16 =
      checksum-lt _ in
    rw (
      append_assoc,
      append_assoc,
      append_assoc,
      append_assoc,
      append_assoc,
      append_assoc,
      append_assoc,
      read_le-le_bytes 8 d.size _ v.size_in,
      read_le-le_bytes 2 d.id _ v.id_in,
      read_le-le_bytes 2 d.frag _ v.frag_in,
      read_le-le_bytes 1 d.protocol _ v.protocol_in,
      read_le-le_bytes 1 d.ttl _ v.ttl_in,
      read_le-le_bytes 2 d.dest _ v.dest_in,
      read_le-le_bytes 2 d.src _ v.src_in,
      whole,
      read_data-sized d.size d.payload _ v.sized,
      read_le-le_bytes_last 2 _ small,
    )
