-- ===== src/Net/Datagram.antt =====
-- `datagram_t`, its fragment field, and its bytes: net_layer/net_layer.h, frag/frag.h,
-- `buildsenddatagram` and `buildrecvdatagram` of net_layer/net_layer.c.
pub mod RoundTrip
use network_layer_full.Base.{
  ℕ, ◌/◌, ◌%◌, ◌^◌, Option, some, List, ◌++◌, ◌>>=◌, take, set_bit, le_bytes, read_le, read_data,
}
use network_layer_full.Checksum.{checksum}

-- The field `data` is `payload`.
pub record Datagram : Type 0 where
  pub size : ℕ
  pub id : ℕ
  pub frag : ℕ
  pub protocol : ℕ
  pub ttl : ℕ
  pub dest : ℕ
  pub src : ℕ
  pub payload : List ℕ
  pub checksum : ℕ

-- NET_HEADER_SIZE, the two checksum bytes included
abbrev pub net_header_size : ℕ
net_header_size = 20

-- `frag & OFFSET_FIELD_MASK`, for the 16-bit field
abbrev pub offset_of : ℕ → ℕ
offset_of frag = frag % 2 ^ 15

-- `frag >> OFFSET_FIELD_LENGTH`
abbrev pub more_bit : ℕ → ℕ
more_bit frag = frag / 2 ^ 15

-- `x | MORE_FRAGS`
abbrev pub with_more : ℕ → ℕ
with_more = set_bit 15

-- The bytes before the checksum.
unfoldable pub datagram_head : Datagram → List ℕ
datagram_head d =
    le_bytes 8 d.size
    ++ (le_bytes 2 d.id
        ++ (le_bytes 2 d.frag
            ++ (le_bytes 1 d.protocol
                ++ (le_bytes 1 d.ttl
                    ++ (le_bytes 2 d.dest ++ (le_bytes 2 d.src ++ take d.size d.payload))))))

-- The datagram with its checksum filled in, and its bytes.
unfoldable pub buildsenddatagram : Datagram → Datagram × List ℕ
unfolding datagram_head
buildsenddatagram d =
    let sum = checksum (datagram_head d) in
    (record d { checksum = sum }, datagram_head d ++ le_bytes 2 sum)

-- `none` is a read past the end of the buffer.
unfoldable pub buildrecvdatagram : List ℕ → Option Datagram
buildrecvdatagram buf = do
  (size, r) ← read_le 8 buf
  (id, r) ← read_le 2 r
  (frag, r) ← read_le 2 r
  (protocol, r) ← read_le 1 r
  (ttl, r) ← read_le 1 r
  (dest, r) ← read_le 2 r
  (src, r) ← read_le 2 r
  (payload, r) ← read_data size r
  (sum, r) ← read_le 2 r
  some (record {
    size = size;
    id = id;
    frag = frag;
    protocol = protocol;
    ttl = ttl;
    dest = dest;
    src = src;
    payload = payload;
    checksum = sum;
  })
