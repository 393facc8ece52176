-- ===== src/Application/Files.antt =====
-- `download` and `upload` of application_layer/application_layer.c.
pub mod Uploading
pub mod Downloading
pub mod Transfer
use network_layer_full.Base.{
  ℕ, zero, suc, ◌+◌, ◌-◌, ◌%◌, ◌^◌, Bool, true, false, ◌&&◌, Option, none, some, List, [], ◌∷◌,
  ◌++◌, if◌then◌else◌, ltb, leb, ◌==◌, ◌>>=◌, length, take, drop, le_bytes, read_le, read_data, u32,
  sub_size,
}
use network_layer_full.Application.Messages.{
  Inbox, Read, recv_ips, Outbox, Sent, send_ips, message, max_buf_length,
}

-- `x > 0` for an `int`, as its four bytes read unsigned.
abbrev pub is_positive : ℕ → Bool
is_positive x = ltb 0 x && ltb x (2 ^ 31)

-- A string up to its NUL; `none` is a read past the bytes.
unfoldable pub c_string : List ℕ → Option (List ℕ)
c_string [] = none
c_string (b ∷ bs) =
    let rest = c_string bs in if b == 0 then some [] else (do more ← rest; some (b ∷ more))

-- `message` as it is handed to `send_ips`, with its length.
abbrev pub send_message : Outbox → List ℕ → Sent
send_message points body = send_ips points (message body) (length (message body))

-- The loop of `upload`, with the bytes that `fread` has not given yet; `none` also if the fuel runs
-- out.
unfoldable pub upload_loop : ℕ → Outbox → List ℕ → ℕ → Sent
unfolding send_ips message
upload_loop zero points contents file_size = none
upload_loop (suc fuel) points contents file_size =
    let part = take (max_buf_length - 4) contents in
    let next = (do
      (now, points) ← send_message points part
      (more, points) ←
          upload_loop fuel points (drop (max_buf_length - 4) contents)
            (u32 (file_size + 2 ^ 32 - length part))
      some (now ++ more, points)) in
    if is_positive file_size then next else some ([], points)

unfoldable pub send_file : ℕ → Outbox → Option (List ℕ) → Sent
unfolding upload_loop
send_file fuel points none = some ([], points)
send_file fuel points (some contents) = upload_loop fuel points contents (u32 (length contents))

-- `file_size`
abbrev pub size_of : Option (List ℕ) → ℕ
size_of none = 0
size_of (some contents) = u32 (length contents)

-- The bytes sent. `fopen` gives the contents of the files that can be opened; the name of a request
-- is copied to an array of 50 bytes. `none` is an access outside of the arrays, or a call that does
-- not return.
unfoldable pub upload : ℕ → (List ℕ → Option (List ℕ)) → Outbox → Inbox → Sent
unfolding send_file c_string recv_ips
upload fuel fopen points i = do
  (recvbuf, i) ← recv_ips i
  (buflen, r) ← read_le 4 recvbuf
  (command, r) ← read_data 1 r
  (name_bytes, r) ← read_data (sub_size buflen 5) r
  file_name ← if leb (length name_bytes) 50 then c_string name_bytes else none
  (size_sent, points) ← send_message points (le_bytes 4 (size_of (fopen file_name)))
  (file_sent, points) ← send_file fuel points (fopen file_name)
  some (size_sent ++ file_sent, points)

-- The loop of `download`: the bytes written to the file.
unfoldable pub receive_file : ℕ → Inbox → ℕ → Read
unfolding recv_ips
receive_file zero i file_size = none
receive_file (suc fuel) i file_size =
    let next = (do
      (recvbuf, i) ← recv_ips i
      (buflen, r) ← read_le 4 recvbuf
      (now, r) ← read_data (u32 (buflen + 2 ^ 32 - 4)) r
      (more, i) ← receive_file fuel i (u32 (file_size + 2 ^ 32 - u32 (buflen + 2 ^ 32 - 4)))
      some (now ++ more, i)) in
    if is_positive file_size then next else some ([], i)

-- The request for a file.
abbrev pub request : List ℕ → List ℕ
request file_name = 2 ∷ (file_name ++ (0 ∷ []))

-- What `download` ends with: the bytes that it sent, and the file, if it wrote one.
abbrev pub Downloaded : Type 0
Downloaded = Option (List ℕ × Option (List ℕ))

unfoldable pub save : ℕ → Bool → List ℕ → Inbox → ℕ → Downloaded
unfolding receive_file
save fuel creates sent i file_size =
    if file_size == 0
    then some (sent, none)
    else (if creates
        then (do (file, i) ← receive_file fuel i file_size; some (sent, some file))
        else some (sent, none))

-- `creates` says whether `fopen` can create the file.
unfoldable pub download : ℕ → Bool → Outbox → Inbox → List ℕ → Downloaded
unfolding save
download fuel creates points i file_name = do
  (sent, points) ← send_message points (request file_name)
  (recvbuf, i) ← recv_ips i
  (buflen, r) ← read_le 4 recvbuf
  (file_size, r) ← read_le 4 r
  save fuel creates sent i file_size
