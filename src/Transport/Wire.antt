-- ===== src/Transport/Wire.antt =====
-- `seg_send_thread` and `internalrecv` of transport_layer/transport_layer.c: segments to and from the
-- network layer.
pub mod OneLink
pub mod Stack
pub mod Repeat
use network_layer_full.Base.{
  ℕ, ◌+◌, ◌-◌, ◌%◌, ◌^◌, Bool, true, false, Option, none, some, List, [], ◌∷◌, ◌++◌, if◌then◌else◌,
  ◌==◌, get_elem?, take, u16, u32, sub_size,
}
use network_layer_full.Checksum.{checksum}
use network_layer_full.Net.Recv.Accept.{Delivery}
use network_layer_full.Transport.Acks.{is_set}
use network_layer_full.Transport.Connect.{Received}
use network_layer_full.Transport.Point.{ServicePoint, Points, Output, sent_once}
use network_layer_full.Transport.Segment.{Segment, buildsendsegment, buildrecvsegment}

-- The loop, from the service point as it is after each pause: the copies sent, and whether the
-- thread has ended.
unfoldable pub wait_ack : List ℕ → ℕ → List (Option ServicePoint) → List Output × Bool
wait_ack bytes num [] = ([], false)
wait_ack bytes num (none ∷ later) = ([], true)
wait_ack bytes num (some p ∷ later) =
    let (more, ended) = wait_ack bytes num later in
    if is_set p.acks num == 1 then ([], true) else (sent_once p.dest bytes ∷ more, ended)

unfoldable pub first_copy : List ℕ → Option ServicePoint → List Output
first_copy bytes none = []
first_copy bytes (some p) = sent_once p.dest bytes ∷ []

-- `first` is the service point at the start; the number of the awaited acknowledgement is a
-- `uint32_t`.
unfoldable pub seg_send_thread :
    Segment → ℕ → Option ServicePoint → List (Option ServicePoint) → List Output × Bool
unfolding wait_ack first_copy buildsendsegment
seg_send_thread seg size first later =
    let bytes = (buildsendsegment seg size).1 in
    let (more, ended) = wait_ack bytes (u32 (seg.seq_num + size)) later in
    (first_copy bytes first ++ more, ended)

-- What becomes of a packet: it is put into `wait_buff` of a service point, once the thread of that
-- point has taken the last one; it is dropped; or memory is read outside of an array.
pub data Arrival : Type 0 where
  posted : ℕ → Received → Arrival
  dropped crash : Arrival

unfoldable pub post : ℕ → Received → Option (Option ServicePoint) → Arrival
post dest recv none = crash
post dest recv (some none) = dropped
post dest recv (some (some p)) = posted dest recv

unfoldable pub at_segment : Points → Delivery → Option Segment → Arrival
unfolding post
at_segment points d none = crash
at_segment points d (some seg) =
    if u16 (checksum (take (sub_size d.size 2) d.payload) + 2 ^ 16 - seg.checksum) == 0
    then post seg.dest (record { segment = seg; size = d.size; src = d.src })
        (get_elem? points seg.dest)
    else dropped

-- One turn of the loop, for a packet of the network layer.
unfoldable pub internalrecv : Points → Delivery → Arrival
unfolding at_segment buildrecvsegment
internalrecv points d = at_segment points d (buildrecvsegment d.payload d.size)
