-- ===== src/Link/Codec.antt =====
-- Frames as bytes, and what arrives of them: link_layer/link.c.
use network_layer_full.Base.{
  ℕ, ◌+◌, ◌-◌, ◌^◌, Option, none, some, List, [], ◌∷◌, ◌++◌, if◌then◌else◌, leb, ◌==◌, ◌>>=◌, take,
  drop, length, le_bytes, read_le, read_data, sub_size, u16,
}
use network_layer_full.Checksum.{checksum}

-- `frame_t`; the field `data` is `payload`.
pub record Frame : Type 0 where
  pub dest : ℕ
  pub size : ℕ
  pub payload : List ℕ
  pub checksum : ℕ

-- The bytes before the checksum.
unfoldable pub frame_head : Frame → List ℕ
frame_head f = le_bytes 2 f.dest ++ (le_bytes 8 f.size ++ take f.size f.payload)

-- The frame with its checksum filled in, and its bytes.
unfoldable pub buildsendframe : Frame → Frame × List ℕ
unfolding frame_head
buildsendframe f =
    let sum = checksum (frame_head f) in
    (record f { checksum = sum }, frame_head f ++ le_bytes 2 sum)

-- The buffer for the payload has `size - LINK_HEADER_SIZE - CHECKSUM_SIZE` bytes, and the macro's
-- body is not in parentheses: `size - 8 + 2 - 2`. A copy past it is a fault.
unfoldable pub getrecvframe : List ℕ → ℕ → Option Frame
getrecvframe buf sum = do
  (dest, rest) ← read_le 2 buf
  (size, rest) ← read_le 8 rest
  (payload, rest) ← read_data size rest
  if leb size (sub_size (length buf) 8)
      then some (record { dest = dest; size = size; payload = payload; checksum = sum })
      else none

-- What one turn of the receive loop makes of a message.
pub data Arrival : Type 0 where
  accepted : Frame → Arrival
  discarded fault : Arrival

abbrev pub delivered : Option Frame → Arrival
delivered none = fault
delivered (some f) = accepted f

-- The stored checksum: the last two bytes.
unfoldable pub stored_checksum : List ℕ → Option ℕ
stored_checksum buf = do (sum, rest) ← read_le 2 (drop (length buf - 2) buf); some sum

-- The test of the checksums, and what follows it.
unfoldable pub check : List ℕ → Option ℕ → Arrival
check buf none = fault
check buf (some sum) =
    if u16 (checksum (take (length buf - 2) buf) + 2 ^ 16 - sum) == 0
    then delivered (getrecvframe buf sum)
    else discarded

-- `recvfrom` cuts the message off at `max` bytes.
unfoldable pub receive : ℕ → List ℕ → Arrival
unfolding check stored_checksum
receive max msg = let buf = take max msg in check buf (stored_checksum buf)

-- The loop of `internalrecv` up to the next accepted frame, over the messages that arrive: the
-- frame, with the messages that are not yet read.
pub data Received : Type 0 where
  got : Frame → List (List ℕ) → Received
  blocked crash : Received

unfoldable pub internalrecv : ℕ → List (List ℕ) → Received
internalrecv max [] = blocked
internalrecv max (msg ∷ msgs) =
    let rest = internalrecv max msgs in
    elim (receive max msg) [ accepted f ↦ got f msgs | discarded ↦ rest | fault ↦ crash ]
