-- ===== src/Tests/Files.antt =====
-- Examples for application_layer/.
use network_layer_full.Base.{
  ℕ, ◌==◌, ◌≡◌, refl, true, false, none, some, Option, List, [], ◌∷◌, ◌++◌, if◌then◌else◌, All,
  arith, length, le_bytes,
}
use network_layer_full.Transport.Segs.{Entry}
use network_layer_full.Transport.Segs.Stream.{content}
use network_layer_full.Transport.Point.{ServicePoint}
use network_layer_full.Application.Messages.{Inbox, Outbox, recv_ips, message}
use network_layer_full.Application.Messages.Inboxes.{Feeds, incoming}
use network_layer_full.Application.Messages.Receiving.{recv_ips-message}
use network_layer_full.Application.Messages.Sending.{IsOpen, free}
use network_layer_full.Application.Files.{request, upload, download}
use network_layer_full.Application.Files.Uploading.{body_stream, file_stream}
use network_layer_full.Application.Files.Transfer.{download-upload}

abbrev entry : List ℕ → Entry
entry bytes = record {
  segm = record {
    src = 1;
    dest = 2;
    seq_num = 0;
    ack_num = 0;
    flags = 0;
    window_size = 8;
    payload = bytes;
    checksum = 0;
  };
  size = length bytes;
}

-- A message in three pieces, the last with a byte of the next one.
abbrev pieces : List (List Entry)
pieces = (entry (0 ∷ 0 ∷ 2 ∷ []) ∷ []) ∷ [] ∷ (entry (65 ∷ 0 ∷ 9 ∷ []) ∷ []) ∷ []

abbrev inbox : Inbox
inbox = record { segs = entry (7 ∷ 0 ∷ []) ∷ []; later = pieces ++ ([] ∷ [] ∷ []) }

inbox-Feeds : Feeds (message (2 ∷ 65 ∷ 0 ∷ []) ++ (9 ∷ [])) 2 inbox
unfolding message content incoming le_bytes
inbox-Feeds = record {
  until = pieces;
  split = refl;
  whole = (refl, tt);
  whole_later = ((refl, tt), (tt, ((refl, tt), tt)));
  bytes = refl;
}

recv_ips-message_example :
    (i : Inbox) × (recv_ips inbox ≡ some (message (2 ∷ 65 ∷ 0 ∷ []), i)) × Feeds (9 ∷ []) 0 i
recv_ips-message_example =
    recv_ips-message (2 ∷ 65 ∷ 0 ∷ []) (9 ∷ []) 0 inbox inbox-Feeds (omega arith)

abbrev point : ServicePoint
point = record {
  dest = 2;
  dest_sp = 0;
  window_size = 8;
  flag_con = 2;
  con_held = false;
  seq_num_s = 0;
  prev_seq_num_s = 0;
  end_seq_num_s = 0;
  seq_num_r = 0;
  prev_seq_num_r = 0;
  end_seq_num_r = 0;
  acks = [];
  segs = [];
  segs_aux = [];
  send_buff = [];
  send_size = 0;
  buffer_full = false;
}

-- The second call waits for the buffer of the first.
abbrev outbox : Outbox
outbox = point ∷ record point { buffer_full = true } ∷ point ∷ []

abbrev outbox-IsOpen : All IsOpen outbox
outbox-IsOpen = (
  record { unlocked = refl; connected = refl },
  (
    record { unlocked = refl; connected = refl },
    (record { unlocked = refl; connected = refl }, tt),
  ),
)

-- The only file is named "A".
abbrev fopen : List ℕ → Option (List ℕ)
fopen [] = none
fopen (c ∷ cs) = if c == 65 then some (5 ∷ 6 ∷ 7 ∷ []) else none

abbrev answers : List (List Entry)
answers =
    (entry (8 ∷ 0 ∷ 0 ∷ 0 ∷ 3 ∷ 0 ∷ 0 ∷ 0 ∷ 7 ∷ []) ∷ [])
    ∷ (entry (0 ∷ 0 ∷ 0 ∷ 5 ∷ 6 ∷ 7 ∷ []) ∷ [])
    ∷ []

abbrev answer_inbox : Inbox
answer_inbox = record { segs = []; later = answers ++ ([] ∷ [] ∷ [] ∷ [] ∷ []) }

answer_inbox-Feeds : Feeds (file_stream 1 (5 ∷ 6 ∷ 7 ∷ []) ++ []) 4 answer_inbox
unfolding file_stream body_stream message content incoming le_bytes
answer_inbox-Feeds = record {
  until = answers;
  split = refl;
  whole = tt;
  whole_later = ((refl, tt), ((refl, tt), tt));
  bytes = refl;
}

download-upload_example :
    ((points : Outbox) × (upload 2 fopen outbox inbox
        ≡ some (file_stream 1 (5 ∷ 6 ∷ 7 ∷ []), points)))
    × (download 2 true (point ∷ []) answer_inbox (65 ∷ [])
        ≡ some (message (request (65 ∷ [])), some (5 ∷ 6 ∷ 7 ∷ [])))
download-upload_example =
    download-upload 1 2 0 fopen (65 ∷ []) (5 ∷ 6 ∷ 7 ∷ []) (9 ∷ []) [] outbox (point ∷ []) inbox
      answer_inbox ((λ e. absurd (omega arith)), tt) (omega arith) refl (omega arith) (omega arith)
      (omega arith) (omega arith) outbox-IsOpen (unfold free in omega arith)
      (record { unlocked = refl; connected = refl }, tt) (unfold free in omega arith) inbox-Feeds
      answer_inbox-Feeds
