-- ===== src/Link/Transfer.antt =====
-- Frames over the wire: what the receiver makes of the sender's bytes, whole or damaged.
use network_layer_full.Base.{
  ℕ, ◌+◌, ◌-◌, ◌%◌, ◌^◌, ◌≤◌, ◌<◌, ◌≡◌, ◌≢◌, ◌⊎◌, inl, inr, refl, sym, ◌∙◌, some, List, [], ◌++◌,
  append-nil, ◌==◌, arith, length, length-append, length-set, true, false, set-append_left,
  set-append_right, get_elem?, get_elem?-append_left, get_elem?-append_right, get_elem?-in_range,
  set, set_same, All, All-get_elem?, IsByte, AllBytes, u8, u16, le_bytes, read_le, length-le_bytes,
  le_bytes-AllBytes, read_le-le_bytes,
}
use native.Mathlib.Decide.{dec_lt, ℕ_discrete}
use native.Mathlib.Nat.{mod-lt}
use network_layer_full.Garbler.Laws.{sendto_garbled-All}
use network_layer_full.Base.Int.{ℤ}
use network_layer_full.Checksum.{checksum}
use network_layer_full.Checksum.Laws.{checksum-lt}
use network_layer_full.Checksum.Detect.{checksum-set_ne, set-AllBytes}
use network_layer_full.Garbler.{Garbler, corrupt, sendto_garbled}
use network_layer_full.Link.Codec.{Frame, frame_head, buildsendframe, accepted, discarded, receive}
use network_layer_full.Link.Frames.{
  IsFrame, read_two, read_two-set_ne, read_two-lt, receive-split, length-frame_head,
  frame_head-AllBytes, getrecvframe-buildsendframe,
}

length-buildsendframe : (f : Frame) → IsFrame f → length (buildsendframe f).1 ≡ f.size + 12
unfolding buildsendframe
length-buildsendframe f v = omega (
  arith,
  length-append (frame_head f) (le_bytes 2 (checksum (frame_head f))),
  length-frame_head f v,
  length-le_bytes 2 (checksum (frame_head f)),
)

-- What a frame carries arrives unchanged, with the checksum that the sender computed, if the
-- message fits into the receive buffer.
pub receive-buildsendframe :
    (max : ℕ) (f : Frame)
    → IsFrame f
    → f.size + 12 ≤ max
    → receive max (buildsendframe f).1 ≡ accepted (buildsendframe f).0
unfolding buildsendframe
receive-buildsendframe max f v fits =
    let sum = checksum (frame_head f) in
    let small = checksum-lt (frame_head f) in
    let stored : read_le 2 (le_bytes 2 sum) ≡ some (sum, []) =
      rw (← append-nil (le_bytes 2 sum)) (read_le-le_bytes 2 sum [] small) in
    let room : length (frame_head f ++ le_bytes 2 sum) ≤ max =
      omega (arith, length-buildsendframe f v) in
    let test : (u16 (sum + 2 ^ 16 - sum) == 0) ≡ true = ground arith in
    receive-split max (frame_head f) (le_bytes 2 sum) sum (length-le_bytes 2 sum) room stored
    ∙ rw (test, getrecvframe-buildsendframe f sum v)

-- The receiver's test fails as soon as the checksum of the front is not the stored one.
receive-mismatch :
    (max : ℕ) (head last : List ℕ) (s : ℕ)
    → length last ≡ 2
    → length (head ++ last) ≤ max
    → read_le 2 last ≡ some (s, [])
    → s < 2 ^ 16
    → checksum head ≢ s
    → receive max (head ++ last) ≡ discarded
receive-mismatch max head last s two fits e small ne =
    let c = checksum-lt head in
    let test : (u16 (checksum head + 2 ^ 16 - s) == 0) ≡ false = ground arith in
    receive-split max head last s two fits e ∙ rw test

receive-damaged_head :
    (max i value old sum : ℕ) (head : List ℕ)
    → AllBytes head
    → length head < 2 ^ 17
    → length head + 2 ≤ max
    → value < 256
    → get_elem? head i ≡ some old
    → value ≢ old
    → sum ≡ checksum head
    → i < length head
    → receive max (set (head ++ le_bytes 2 sum) i value) ≡ discarded
receive-damaged_head max i value old sum head h small fits hv g ne es lt =
    let c = checksum-lt head in
    let stored : read_le 2 (le_bytes 2 sum) ≡ some (sum, []) =
      rw (← append-nil (le_bytes 2 sum)) (read_le-le_bytes 2 sum [] (omega arith)) in
    let apart =
      checksum-set_ne head i value old h hv (All-get_elem? IsByte head i h g) small g ne in
    rw (set-append_left head (le_bytes 2 sum) i value lt) (
      receive-mismatch max (set head i value) (le_bytes 2 sum) sum (length-le_bytes 2 sum)
        (omega (
          arith,
          length-append (set head i value) (le_bytes 2 sum),
          length-set head i value,
          length-le_bytes 2 sum,
        ))
        stored (omega arith) (rw es apart))

receive-damaged_last :
    (max j value old sum : ℕ) (head : List ℕ)
    → length head + 2 ≤ max
    → value < 256
    → get_elem? (le_bytes 2 sum) j ≡ some old
    → value ≢ old
    → sum ≡ checksum head
    → receive max (set (head ++ le_bytes 2 sum) (length head + j) value) ≡ discarded
receive-damaged_last max j value old sum head fits hv g ne es =
    let c = checksum-lt head in
    let two : length (set (le_bytes 2 sum) j value) ≡ 2 =
      length-set (le_bytes 2 sum) j value ∙ length-le_bytes 2 sum in
    let stored : read_le 2 (le_bytes 2 sum) ≡ some (sum, []) =
      rw (← append-nil (le_bytes 2 sum)) (read_le-le_bytes 2 sum [] (omega arith)) in
    let other = read_two (set (le_bytes 2 sum) j value) two in
    let apart =
      read_two-set_ne (le_bytes 2 sum) j value old sum other.0 (length-le_bytes 2 sum)
        (le_bytes-AllBytes 2 sum) hv g ne stored other.1 in
    let bytes' = set-AllBytes (le_bytes 2 sum) j value (le_bytes-AllBytes 2 sum) hv in
    rw (set-append_right head (le_bytes 2 sum) j value) (
      receive-mismatch max head (set (le_bytes 2 sum) j value) other.0 two
        (omega (arith, length-append head (set (le_bytes 2 sum) j value))) other.1
        (read_two-lt (set (le_bytes 2 sum) j value) other.0 bytes' other.1)
        (λ q. apart (omega arith)))

-- The message of a frame is discarded when one byte of it is changed, at whatever place, provided
-- that the whole message, 12 bytes more than the frame's data, fits into the receive buffer of
-- `max` bytes, and that the frame is one that the sender builds: its size is that of its data, and
-- is below 2^17 with the ten bytes in front.
pub receive-damaged :
    (max i value old : ℕ) (f : Frame)
    → IsFrame f
    → f.size + 12 ≤ max
    → value < 256
    → get_elem? (buildsendframe f).1 i ≡ some old
    → value ≢ old
    → receive max (set (buildsendframe f).1 i value) ≡ discarded
unfolding buildsendframe
receive-damaged max i value old f v fits hv e ne =
    let head = frame_head f in
    let sum = checksum head in
    let len = length-frame_head f v in
    elim (dec_lt i (length head)) [
      | yes lt ↦
          receive-damaged_head max i value old sum head (frame_head-AllBytes f v)
            (omega (arith, v.small)) (omega arith) hv
            (sym (get_elem?-append_left head (le_bytes 2 sum) i lt) ∙ e) ne refl lt
      | no ge ↦
          let k : i ≡ length head + (i - length head) = omega arith in
          let e' : get_elem? (head ++ le_bytes 2 sum) (length head + (i - length head)) ≡ some old =
            rw (← k) e in
          rw k (
            receive-damaged_last max (i - length head) value old sum head (omega arith) hv
              (sym (get_elem?-append_right head (le_bytes 2 sum) (i - length head)) ∙ e') ne refl)
    ]

abbrev Harmless : ℕ → Frame → List ℕ → Type 0
Harmless max f msg =
    (receive max msg ≡ accepted (buildsendframe f).0) ⊎ (receive max msg ≡ discarded)

receive-corrupt :
    (random2 max : ℕ) (f : Frame)
    → IsFrame f
    → f.size + 12 ≤ max
    → Harmless max f (corrupt random2 (buildsendframe f).1)
unfolding corrupt
receive-corrupt random2 max f v fits =
    let msg = (buildsendframe f).1 in
    let len = length-buildsendframe f v in
    let i = random2 % length msg in
    let here = get_elem?-in_range msg i (mod-lt random2 (omega arith)) in
    elim (ℕ_discrete (u8 random2) here.0) [
      | yes e ↦ inl (rw (e, set_same msg i here.0 here.1) (receive-buildsendframe max f v fits))
      | no ne ↦ inr (receive-damaged max i (u8 random2) here.0 f v fits (omega arith) here.1 ne)
    ]

-- Whatever the garbler does to the message of a frame, each of the at most two messages that it
-- hands to `sendto` is either accepted as the frame that was sent, or discarded, provided that the
-- whole message, 12 bytes more than the frame's data, fits into the receive buffer of `max` bytes,
-- and that the frame is one that the sender builds: its size is that of its data, and is below
-- 2^17 with the ten bytes in front.
pub receive-sendto_garbled :
    (sendto : ℕ → List ℕ → ℤ) (g : Garbler) (random1 random2 max : ℕ) (f : Frame)
    → IsFrame f
    → f.size + 12 ≤ max
    → let sent = (sendto_garbled sendto g random1 random2 (buildsendframe f).1).0 in
      All
        (λ msg. (receive max msg ≡ accepted (buildsendframe f).0) ⊎ (receive max msg ≡ discarded))
        sent
      × (length sent ≤ 2)
receive-sendto_garbled sendto g random1 random2 max f v fits =
    sendto_garbled-All (Harmless max f) sendto g random1 random2 (buildsendframe f).1
      (inl (receive-buildsendframe max f v fits)) (receive-corrupt random2 max f v fits)
