-- ===== src/Application/Files/Downloading.antt =====
-- What `download` makes of the messages of a file.
use network_layer_full.Base.{
  ℕ, zero, suc, ◌+◌, ◌-◌, ◌*◌, ◌^◌, ◌≤◌, ◌<◌, ◌≡◌, refl, sym, ap, subst, ◌∙◌, true, false, some,
  List, [], ◌∷◌, ◌++◌, append-nil, append_assoc, arith, ◌==◌, ne→not_==, length, length-take,
  length-drop, take, drop, take-append-drop, le_bytes, length-le_bytes, read_le-le_bytes,
  read_le-le_bytes_last, read_data, read_data-append, u32,
}
use network_layer_full.Application.Messages.{Inbox, recv_ips, Outbox, message}
use network_layer_full.Application.Messages.Inboxes.{Feeds}
use network_layer_full.Application.Messages.Receiving.{recv_ips-message}
use network_layer_full.Application.Files.{
  is_positive, send_message, receive_file, save, download, request,
}
use network_layer_full.Application.Files.Uploading.{body_stream, body_stream-suc, file_stream}

-- A round of the loop.
receive_file-suc :
    (fuel : ℕ) (i i' i'' : Inbox) (contents more : List ℕ)
    → 0 < length contents
    → length contents < 2 ^ 31
    → recv_ips i ≡ some (message (take 1020 contents), i')
    → receive_file fuel i' (length (drop 1020 contents)) ≡ some (more, i'')
    → receive_file (suc fuel) i (length contents) ≡ some (take 1020 contents ++ more, i'')
unfolding receive_file message
receive_file-suc fuel i i' i'' contents more pos small got rest =
    let part = take 1020 contents in
    let len = length-take 1020 contents in
    let size : u32 (4 + length part + 2 ^ 32 - 4) ≡ length part = omega (arith, len) in
    let next : u32 (length contents + 2 ^ 32 - length part) ≡ length (drop 1020 contents) =
      omega (arith, len, length-drop 1020 contents) in
    let go : is_positive (length contents) ≡ true = ground arith in
    let bytes : read_data (length part) part ≡ some (part, []) =
      ap (read_data (length part)) (sym (append-nil part)) ∙ read_data-append part [] in
    rw (
      go,
      got,
      read_le-le_bytes 4 (4 + length part) part (omega (arith, len)),
      size,
      bytes,
      next,
      rest,
    )

receive_file-reads :
    (n fuel spare : ℕ) (contents tail : List ℕ) (i : Inbox)
    → length contents ≤ 1020 * n
    → n < fuel
    → length contents < 2 ^ 31
    → Feeds (body_stream n contents ++ tail) (2 * n + spare) i
    → (i' : Inbox) × (receive_file fuel i (length contents) ≡ some (contents, i'))
unfolding receive_file
receive_file-reads n zero spare contents tail i fits more small feeds = absurd (omega arith)
receive_file-reads n (suc fuel) spare [] tail i fits more small feeds = (i, refl)
receive_file-reads zero (suc fuel) spare (b ∷ bs) tail i fits more small feeds =
    absurd (omega arith)
receive_file-reads (suc n) (suc fuel) spare (b ∷ bs) tail i fits more small feeds =
    let contents = b ∷ bs in
    let part = take 1020 contents in
    let after = drop 1020 contents in
    let count : 2 * suc n + spare ≡ suc (suc (2 * n + spare)) = omega arith in
    let stream : body_stream (suc n) contents ++ tail
        ≡ message part ++ (body_stream n after ++ tail) =
      ap (λ t. t ++ tail) (body_stream-suc n contents (omega arith))
      ∙ append_assoc (message part) (body_stream n after) tail in
    let feeds' : Feeds (message part ++ (body_stream n after ++ tail)) (suc (suc (2 * n + spare)))
        i =
      subst (λ b. Feeds b (suc (suc (2 * n + spare))) i) stream
        (subst (λ k. Feeds (body_stream (suc n) contents ++ tail) k i) count feeds) in
    let got =
      recv_ips-message part (body_stream n after ++ tail) (2 * n + spare) i feeds'
        (omega (arith, length-take 1020 contents)) in
    let ih =
      receive_file-reads n fuel spare after tail got.0 (omega (arith, length-drop 1020 contents))
        (omega arith) (omega (arith, length-drop 1020 contents)) got.2 in
    (
      ih.0,
      receive_file-suc fuel i got.0 ih.0 contents after (omega arith) small got.1 ih.1
          ∙ ap (λ (t : List ℕ). some (t, ih.0)) (take-append-drop 1020 contents),
    )

-- The steps of `download`.
download-by :
    (fuel : ℕ) (points points' : Outbox) (i i' i'' : Inbox) (name sent contents : List ℕ)
    → send_message points (request name) ≡ some (sent, points')
    → recv_ips i ≡ some (message (le_bytes 4 (length contents)), i')
    → 0 < length contents
    → length contents < 2 ^ 31
    → receive_file fuel i' (length contents) ≡ some (contents, i'')
    → download fuel true points i name ≡ some (sent, some contents)
unfolding download save message
download-by fuel points points' i i' i'' name sent contents request_sent got pos small file =
    let size = le_bytes 4 (length contents) in
    let some_there : (length contents == 0) ≡ false = ne→not_== (length contents) 0 (omega arith) in
    rw (
      request_sent,
      got,
      read_le-le_bytes 4 (4 + length size) size
          (omega (arith, length-le_bytes 4 (length contents))),
      read_le-le_bytes_last 4 (length contents) (omega arith),
      some_there,
      file,
    )

pub download-saves :
    (n fuel spare : ℕ) (points points' : Outbox) (i : Inbox) (name sent contents tail : List ℕ)
    → send_message points (request name) ≡ some (sent, points')
    → length contents ≤ 1020 * n
    → n < fuel
    → 0 < length contents
    → length contents < 2 ^ 31
    → Feeds (file_stream n contents ++ tail) (2 + (2 * n + spare)) i
    → download fuel true points i name ≡ some (sent, some contents)
unfolding file_stream
download-saves n fuel spare points points' i name sent contents tail request_sent fits more pos
      small feeds =
    let size = le_bytes 4 (length contents) in
    let stream = append_assoc (message size) (body_stream n contents) tail in
    let count : 2 + (2 * n + spare) ≡ suc (suc (2 * n + spare)) = omega arith in
    let feeds' : Feeds (message size ++ (body_stream n contents ++ tail))
        (suc (suc (2 * n + spare))) i =
      subst (λ b. Feeds b (suc (suc (2 * n + spare))) i) stream
        (subst (λ k. Feeds ((message size ++ body_stream n contents) ++ tail) k i) count feeds) in
    let got =
      recv_ips-message size (body_stream n contents ++ tail) (2 * n + spare) i feeds'
        (omega (arith, length-le_bytes 4 (length contents))) in
    let file = receive_file-reads n fuel spare contents tail got.0 fits more small got.2 in
    download-by fuel points points' i got.0 file.0 name sent contents request_sent got.1 pos small
      file.1
