-- ===== src/Application/Files/Uploading.antt =====
-- What `upload` sends.
use network_layer_full.Base.{
  ℕ, zero, suc, ◌+◌, ◌-◌, ◌*◌, ◌^◌, ◌≤◌, ◌<◌, ◌≡◌, ◌≢◌, refl, sym, ap, ◌∙◌, true, Option, some,
  List, [], ◌∷◌, ◌++◌, arith, if◌then◌else◌, leb, le→leb, ◌==◌, ne→not_==, All, length,
  length-append, length-take, length-drop, take, drop, append-nil, le_bytes, length-le_bytes,
  read_le, read_le-le_bytes, read_data, read_data-append, u32, sub_size,
}
use native.Mathlib.Decide.{ℕ_discrete}
use network_layer_full.Application.Messages.{Inbox, recv_ips, Outbox, message}
use network_layer_full.Application.Messages.Sending.{IsOpen, free, Taken, send_ips-Taken}
use network_layer_full.Application.Messages.Inboxes.{Feeds}
use network_layer_full.Application.Messages.Receiving.{recv_ips-message}
use network_layer_full.Application.Files.{
  is_positive, c_string, send_message, upload_loop, send_file, upload, request,
}

-- The contents of a file in messages of at most 1020 bytes, `n` at most.
unfoldable pub body_stream : ℕ → List ℕ → List ℕ
body_stream zero contents = []
body_stream (suc n) contents =
    let more = body_stream n (drop 1020 contents) in
    if length contents == 0 then [] else message (take 1020 contents) ++ more

-- The messages of a file: its size, and its contents.
unfoldable pub file_stream : ℕ → List ℕ → List ℕ
file_stream n contents = message (le_bytes 4 (length contents)) ++ body_stream n contents

pub length-message : (body : List ℕ) → length (message body) ≡ 4 + length body
unfolding message
length-message body =
    omega (
      arith,
      length-append (le_bytes 4 (4 + length body)) body,
      length-le_bytes 4 (4 + length body),
    )

pub send_message-Taken :
    (points : Outbox) (body : List ℕ) (k : ℕ)
    → All IsOpen points
    → suc k ≤ free points
    → length body ≤ 1020
    → Taken k (message body) (send_message points body)
send_message-Taken points body k all room small =
    send_ips-Taken points (message body) k all room (omega (arith, length-message body))
      (omega (arith, length-message body))

pub body_stream-suc :
    (n : ℕ) (contents : List ℕ)
    → length contents ≢ 0
    → body_stream (suc n) contents
      ≡ message (take 1020 contents) ++ body_stream n (drop 1020 contents)
unfolding body_stream
body_stream-suc n contents full = rw (ne→not_== (length contents) 0 full)

-- A round of the loop.
upload_loop-suc :
    (fuel : ℕ) (points points' points'' : Outbox) (contents now more : List ℕ)
    → 0 < length contents
    → length contents < 2 ^ 31
    → send_message points (take 1020 contents) ≡ some (now, points')
    → upload_loop fuel points' (drop 1020 contents) (length (drop 1020 contents))
      ≡ some (more, points'')
    → upload_loop (suc fuel) points contents (length contents) ≡ some (now ++ more, points'')
unfolding upload_loop
upload_loop-suc fuel points points' points'' contents now more pos small first rest =
    let next : u32 (length contents + 2 ^ 32 - length (take 1020 contents))
        ≡ length (drop 1020 contents) =
      omega (arith, length-take 1020 contents, length-drop 1020 contents) in
    let go : is_positive (length contents) ≡ true = ground arith in rw (go, first, next, rest)

upload_loop-Taken :
    (n fuel : ℕ) (points : Outbox) (contents : List ℕ) (k : ℕ)
    → length contents ≤ 1020 * n
    → n < fuel
    → length contents < 2 ^ 31
    → All IsOpen points
    → n + k ≤ free points
    → Taken k (body_stream n contents) (upload_loop fuel points contents (length contents))
unfolding upload_loop body_stream
upload_loop-Taken n zero points contents k fits more small all room = absurd (omega arith)
upload_loop-Taken zero (suc fuel) points contents k fits more small all room =
    let empty : length contents ≡ 0 = omega arith in
    rw empty
      (record { points = points; all_taken = refl; still_open = all; still_free = omega arith })
upload_loop-Taken (suc n) (suc fuel) points contents k fits more small all room =
    elim (ℕ_discrete (length contents) 0) [
      | yes empty ↦
          rw empty (record {
            points = points;
            all_taken = refl;
            still_open = all;
            still_free = omega arith;
          })
      | no full ↦
          let len = length-take 1020 contents in
          let first =
            send_message-Taken points (take 1020 contents) (n + k) all (omega arith)
              (omega (arith, len)) in
          let ih =
            upload_loop-Taken n fuel first.points (drop 1020 contents) k
              (omega (arith, length-drop 1020 contents)) (omega arith)
              (omega (arith, length-drop 1020 contents)) first.still_open first.still_free in
          record {
            points = ih.points;
            all_taken =
                upload_loop-suc fuel points first.points ih.points contents
                  (message (take 1020 contents)) (body_stream n (drop 1020 contents)) (omega arith)
                  small first.all_taken ih.all_taken
                ∙ ap (λ (b : List ℕ). some (b, ih.points)) (sym (body_stream-suc n contents full));
            still_open = ih.still_open;
            still_free = ih.still_free;
          }
    ]

c_string-append :
    (name rest : List ℕ) → All (λ (b : ℕ). b ≢ 0) name → c_string (name ++ (0 ∷ rest)) ≡ some name
unfolding c_string
c_string-append [] rest h = refl
c_string-append (b ∷ name) rest h = rw (ne→not_== b 0 h.0, c_string-append name rest h.1)

-- The name in a request.
read_request :
    (name : List ℕ)
    → length name ≤ 49
    → read_le 4 (message (request name)) ≡ some (6 + length name, request name)
unfolding message
read_request name small =
    let len = length-append name (0 ∷ []) in
    let sum : 4 + length (request name) ≡ 6 + length name = omega (arith, len) in
    rw (read_le-le_bytes 4 (4 + length (request name)) (request name) (omega (arith, len)), sum)

-- The steps of `upload`.
upload-by :
    (fuel : ℕ) (fopen : List ℕ → Option (List ℕ)) (points points' points'' : Outbox) (i i' : Inbox)
    (name contents now more : List ℕ)
    → recv_ips i ≡ some (message (request name), i')
    → length name ≤ 49
    → All (λ (b : ℕ). b ≢ 0) name
    → fopen name ≡ some contents
    → length contents < 2 ^ 31
    → send_message points (le_bytes 4 (length contents)) ≡ some (now, points')
    → upload_loop fuel points' contents (length contents) ≡ some (more, points'')
    → upload fuel fopen points i ≡ some (now ++ more, points'')
unfolding upload send_file read_data
upload-by fuel fopen points points' points'' i i' name contents now more got short proper there
      small first second =
    let body = name ++ (0 ∷ []) in
    let len = length-append name (0 ∷ []) in
    let size : u32 (length contents) ≡ length contents = omega arith in
    let rest : sub_size (6 + length name) 5 ≡ length body = omega (arith, len) in
    let bytes : read_data (length body) body ≡ some (body, []) =
      ap (read_data (length body)) (sym (append-nil body)) ∙ read_data-append body [] in
    let fits : leb (length body) 50 ≡ true = le→leb (length body) 50 (omega (arith, len)) in
    rw (
      got,
      read_request name short,
      rest,
      bytes,
      fits,
      c_string-append name [] proper,
      there,
      size,
      first,
      second,
    )

-- A request for a file that can be opened, of less than 2 ^ 31 bytes, is answered with the
-- messages of the file, while the calls of `send_point` find an open connection, and often enough
-- the last buffer sent.
pub upload-Taken :
    (fuel n k : ℕ) (fopen : List ℕ → Option (List ℕ)) (points : Outbox) (i : Inbox)
    (name contents tail : List ℕ)
    → Feeds (message (request name) ++ tail) 2 i
    → All (λ (b : ℕ). b ≢ 0) name
    → length name ≤ 49
    → fopen name ≡ some contents
    → length contents ≤ 1020 * n
    → n < fuel
    → length contents < 2 ^ 31
    → All IsOpen points
    → suc (n + k) ≤ free points
    → Taken k (file_stream n contents) (upload fuel fopen points i)
unfolding file_stream
upload-Taken fuel n k fopen points i name contents tail feeds proper short there fits enough small
      all room =
    let got =
      recv_ips-message (request name) tail 0 i feeds (omega (arith, length-append name (0 ∷ []))) in
    let first =
      send_message-Taken points (le_bytes 4 (length contents)) (n + k) all room
        (omega (arith, length-le_bytes 4 (length contents))) in
    let second =
      upload_loop-Taken n fuel first.points contents k fits enough small first.still_open
        first.still_free in
    record {
      points = second.points;
      all_taken =
          upload-by fuel fopen points first.points second.points i got.0 name contents
            (message (le_bytes 4 (length contents))) (body_stream n contents) got.1 short proper
            there small first.all_taken second.all_taken;
      still_open = second.still_open;
      still_free = second.still_free;
    }
