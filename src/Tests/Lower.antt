-- ===== src/Tests/Lower.antt =====
-- Examples for checksum/, garbler/, project.c and link_layer/.
use network_layer_full.Base.{
  ℕ, ◌+◌, ◌-◌, ◌≤◌, ◌<◌, ◌≡◌, ◌≢◌, ◌⊎◌, refl, ◌∙◌, le_bytes, some, List, [], ◌∷◌, set, length, All,
  arith, none,
}
use network_layer_full.Base.Int.{ℤ, pos}
use network_layer_full.Checksum.{checksum}
use network_layer_full.Checksum.Laws.{ones_sum, word_sum, checksum_lem}
use network_layer_full.Checksum.Detect.{checksum-set_ne}
use network_layer_full.Garbler.{Garbler, sendto_garbled}
use network_layer_full.Topology.{Host, Links, initlinks, getmtu, findhost, config_link, update}
use network_layer_full.Topology.Laws.{config_link-getmtu_unchanged}
use network_layer_full.Link.Codec.{Frame, buildsendframe, frame_head, accepted, discarded, receive}
use network_layer_full.Link.Frames.{IsFrame}
use network_layer_full.Link.Transfer.{receive-damaged, receive-sendto_garbled}
use network_layer_full.Link.Send.{LinkState, ok, link_send, send_over, fill_slot, internalsend}
use network_layer_full.Link.Laws.{packet_frame, link_send-delivers}

abbrev bytes : List ℕ
bytes = 255 ∷ 255 ∷ 1 ∷ []

checksum_lem_example : checksum bytes ≡ 65535 - ones_sum (word_sum bytes)
checksum_lem_example =
    checksum_lem bytes (omega arith, (omega arith, (omega arith, tt))) (omega arith)

-- 65535 and 1 add up to 1 with the carry.
checksum_of_bytes : checksum bytes ≡ 65534
checksum_of_bytes = checksum_lem_example ∙ unfold word_sum in refl

checksum-set_ne_example : checksum (set bytes 1 7) ≢ checksum bytes
checksum-set_ne_example =
    checksum-set_ne bytes 1 7 255 (omega arith, (omega arith, (omega arith, tt))) (omega arith)
      (omega arith) (omega arith) refl (omega arith)

abbrev garbler : Garbler
garbler = record {
  loss_fraction = pos 10;
  corruption_fraction = pos 20;
  duplication_fraction = pos 30;
}

-- Hosts 2 and 3 are called with their own numbers, so hosts 3 and 4 get the MTU.
abbrev links : Links
links = update (update initlinks 2 3 (pos 1500)) 3 2 (pos 1500)

configured : config_link initlinks 2 3 (pos 1500) ≡ some links
unfolding config_link
configured = refl

config_link-getmtu_unchanged_example :
    (getmtu links 2 3 ≡ getmtu initlinks 2 3) × (getmtu links 3 2 ≡ getmtu initlinks 3 2)
config_link-getmtu_unchanged_example =
    config_link-getmtu_unchanged initlinks links 2 3 (pos 1500) configured

link_3_4 : getmtu links 3 4 ≡ some (pos 1500)
unfolding getmtu
link_3_4 = refl

abbrev packet : List ℕ
packet = 7 ∷ 0 ∷ 250 ∷ []

abbrev frame : Frame
frame = packet_frame 4 3 packet

abbrev packet_bytes : All (λ b. b < 256) packet
packet_bytes = (omega arith, (omega arith, (omega arith, tt)))

abbrev frame-IsFrame : IsFrame frame
frame-IsFrame = record {
  dest_in = omega arith;
  sized = refl;
  small = omega arith;
  bytes = packet_bytes;
}

-- Byte 12 is the last of the packet.
receive-damaged_example : receive 1512 (set (buildsendframe frame).1 12 251) ≡ discarded
unfolding le_bytes
receive-damaged_example =
    receive-damaged 1512 12 251 250 frame frame-IsFrame (omega arith) (omega arith)
      (unfold buildsendframe frame_head in refl) (omega arith)

abbrev sendto : ℕ → List ℕ → ℤ
sendto n msg = pos (length msg)

receive-sendto_garbled_example :
    let sent = (sendto_garbled sendto garbler 115 77 (buildsendframe frame).1).0 in
    All
      (λ msg.
        (receive 1512 msg ≡ accepted (buildsendframe frame).0) ⊎ (receive 1512 msg ≡ discarded))
      sent
    × (length sent ≤ 2)
receive-sendto_garbled_example =
    receive-sendto_garbled sendto garbler 115 77 1512 frame frame-IsFrame (omega arith)

abbrev host : ℕ → Host
host n = record { num = n; port = 5000 + n; ip_addr = 2130706433 }

abbrev state : LinkState
state = record {
  me = host 3;
  hosts = host 1 ∷ host 2 ∷ host 3 ∷ host 4 ∷ [];
  links = links;
  garbler = garbler;
  slot = none;
}

abbrev loaded : LinkState
loaded = record state { slot = some (packet_frame 4 3 packet, host 4) }

loads : link_send state 4 packet 3 ≡ ok loaded
unfolding link_send send_over fill_slot getmtu findhost
loads = refl

link_send-delivers_example :
    (msgs : List (List ℕ)) × (to : Host) × (internalsend sendto 5 77 loaded
      ≡ some (msgs, to, state))
    × (findhost state.hosts 4 ≡ some to)
    × All
        (λ msg.
          (receive 1512 msg ≡ accepted (buildsendframe (packet_frame 4 3 packet)).0)
          ⊎ (receive 1512 msg ≡ discarded))
        msgs
link_send-delivers_example =
    link_send-delivers state loaded 4 3 1512 5 77 packet sendto (omega arith) refl packet_bytes
      (omega arith) (omega arith) loads
