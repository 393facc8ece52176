-- ===== src/Application/Messages.antt =====
-- `send_ips` and `recv_ips` of application_layer/application_layer.c: a message is its length in four
-- bytes, these four counted, and its body.
pub mod Inboxes
pub mod Receiving
pub mod Sending
use network_layer_full.Base.{
  ℕ, ◌+◌, ◌-◌, ◌%◌, ◌^◌, Option, none, some, List, [], ◌∷◌, ◌++◌, if◌then◌else◌, leb, ◌==◌, ◌>>=◌,
  length, take, drop, le_bytes, read_le, u32, size_mod,
}
use network_layer_full.Transport.Point.{ServicePoint, Call, done, blocked, fault}
use network_layer_full.Transport.Segs.{Entry, recv_seg}
use network_layer_full.Transport.Sender.{send_point}

-- MAX_BUF_LENGTH
abbrev pub max_buf_length : ℕ
max_buf_length = 1024

-- The segments that are ready at a service point, and those that become ready before each of the
-- next calls of `recv_point`.
pub record Inbox : Type 0 where
  pub segs : List Entry
  pub later : List (List Entry)

-- The bytes and the inbox after them.
abbrev pub Read : Type 0
Read = Option (List ℕ × Inbox)

abbrev pub and_more : List ℕ → Read → Read
and_more now none = none
and_more now (some (more, i)) = some (now ++ more, i)

-- A loop of `recv_ips`, for `buflen` bytes, from the bytes that a call gave; `none`: it still runs.
unfoldable pub after_recv :
    (List Entry → ℕ → Read) → List (List Entry) → ℕ → List ℕ × List Entry → Read
after_recv more later buflen (bytes, segs) =
    let left = u32 (buflen + 2 ^ 32 - u32 (length bytes)) in
    if left == 0
    then some (bytes, record { segs = segs; later = later })
    else and_more bytes (more segs left)

unfoldable pub recv_loop : List (List Entry) → List Entry → ℕ → Read
unfolding after_recv
recv_loop [] segs buflen = none
recv_loop (new ∷ later) segs buflen =
    after_recv (recv_loop later) later buflen (recv_seg (segs ++ new) buflen)

-- What the buffer holds after a call. `none` is also a message that is longer than the caller's
-- buffer of `max_buf_length` bytes.
unfoldable pub recv_ips : Inbox → Read
unfolding recv_loop
recv_ips i = do
  (head, i) ← recv_loop i.later i.segs 4
  (buflen, r) ← read_le 4 head
  (body, i) ←
      (if leb (4 + u32 (buflen + 2 ^ 32 - 4)) max_buf_length
        then recv_loop i.later i.segs (u32 (buflen + 2 ^ 32 - 4))
        else none)
  some (head ++ body, i)

-- The service point as each of the next calls of `send_point` finds it.
abbrev pub Outbox : Type 0
Outbox = List ServicePoint

-- The bytes that the transport layer takes, and the outbox after them.
abbrev pub Sent : Type 0
Sent = Option (List ℕ × Outbox)

abbrev pub sent_more : List ℕ → Sent → Sent
sent_more now none = none
sent_more now (some (more, points)) = some (now ++ more, points)

-- A call that waits goes on with the service point as it is later.
unfoldable pub after_send : (List ℕ → ℕ → Sent) → Outbox → List ℕ → ℕ → Call ℕ → Sent
after_send more points buf size blocked = more buf size
after_send more points buf size fault = none
after_send more points buf size (done bytes p out) =
    let left = (size + size_mod - u32 bytes) % size_mod in
    if left == 0
    then some (take (u32 bytes) buf, points)
    else sent_more (take (u32 bytes) buf) (more (drop (u32 bytes) buf) left)

-- `none`: the loop still runs.
unfoldable pub send_ips : Outbox → List ℕ → ℕ → Sent
unfolding after_send send_point
send_ips [] buf size = none
send_ips (p ∷ points) buf size =
    after_send (send_ips points) points buf size (send_point p buf size)

-- A message as `upload` and `download` build it.
unfoldable pub message : List ℕ → List ℕ
message body = le_bytes 4 (4 + length body) ++ body
