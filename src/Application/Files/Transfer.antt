-- ===== src/Application/Files/Transfer.antt =====
-- A file from the host of `upload` to the host of `download`.
use network_layer_full.Base.{
  ℕ, suc, ◌+◌, ◌*◌, ◌^◌, ◌≤◌, ◌<◌, ◌≡◌, ◌≢◌, true, Option, some, List, [], ◌∷◌, ◌++◌, arith, All,
  length, length-append,
}
use network_layer_full.Application.Messages.{Inbox, Outbox, message}
use network_layer_full.Application.Messages.Sending.{IsOpen, free}
use network_layer_full.Application.Messages.Inboxes.{Feeds}
use network_layer_full.Application.Files.{upload, download, request}
use network_layer_full.Application.Files.Uploading.{file_stream, send_message-Taken, upload-Taken}
use network_layer_full.Application.Files.Downloading.{download-saves}

-- A file of 1 to 2 ^ 31 - 1 bytes whose name has at most 49 bytes, none of them 0, and can be
-- opened at one end and created at the other. The calls of `send_point` find the connection open
-- and often enough the last buffer sent, and each end gets, in any pieces and followed by
-- anything, the bytes that the other sends, with calls of `recv_point` enough after the last of
-- them. Then both functions return: `upload` has sent the size and the contents in messages of at
-- most 1024 bytes, and `download` has sent the request and written exactly the contents.
pub download-upload :
    (n fuel spare : ℕ) (fopen : List ℕ → Option (List ℕ))
    (name contents after_request after_file : List ℕ) (up_points down_points : Outbox)
    (up_inbox down_inbox : Inbox)
    → All (λ (b : ℕ). b ≢ 0) name
    → length name ≤ 49
    → fopen name ≡ some contents
    → 0 < length contents
    → length contents < 2 ^ 31
    → length contents ≤ 1020 * n
    → n < fuel
    → All IsOpen up_points
    → suc n ≤ free up_points
    → All IsOpen down_points
    → 1 ≤ free down_points
    → Feeds (message (request name) ++ after_request) 2 up_inbox
    → Feeds (file_stream n contents ++ after_file) (2 + (2 * n + spare)) down_inbox
    → ((points : Outbox) × (upload fuel fopen up_points up_inbox
          ≡ some (file_stream n contents, points)))
      × (download fuel true down_points down_inbox name
          ≡ some (message (request name), some contents))
download-upload n fuel spare fopen name contents after_request after_file up_points down_points
      up_inbox down_inbox proper short there pos small fits enough up_open up_room down_open
      down_room asked answered =
    let up =
      upload-Taken fuel n 0 fopen up_points up_inbox name contents after_request asked proper short
        there fits enough small up_open (omega arith) in
    let down =
      send_message-Taken down_points (request name) 0 down_open down_room
        (omega (arith, length-append name (0 ∷ []))) in
    (
      (up.points, up.all_taken),
      download-saves n fuel spare down_points down.points down_inbox name (message (request name))
          contents after_file down.all_taken fits enough pos small answered,
    )
