-- ===== src/Link/Frames.antt =====
-- The bytes of a frame: their number, and how they are read.
use network_layer_full.Base.{
  ℕ, zero, suc, ◌+◌, ◌-◌, ◌*◌, ◌^◌, ◌≤◌, ◌<◌, ◌≡◌, ◌≢◌, refl, Option, none, some, List, [], ◌∷◌,
  ◌++◌, append_assoc, if◌then◌else◌, ◌==◌, arith, length, length-append, length-take, ◌>>=◌, leb,
  true, take, take-all, take-append_of, drop, drop-append_of, get_elem?, set, All-append, All-take,
  IsByte, AllBytes, u16, le_bytes, read_le, read_data, length-le_bytes, le_bytes-AllBytes,
  read_le-le_bytes, read_data-append, sub_size,
}
use network_layer_full.Checksum.{checksum}
use network_layer_full.Link.Codec.{Frame, frame_head, getrecvframe, discarded, delivered, receive}

-- A frame as `link_send` makes it: the fields fit their widths, `size` is the payload's.
pub record IsFrame (f : Frame) : Type 0 where
  pub dest_in : f.dest < 2 ^ 16
  pub sized : length f.payload ≡ f.size
  pub small : f.size + 10 < 2 ^ 17
  pub bytes : AllBytes f.payload

pub read_two : (bs : List ℕ) → length bs ≡ 2 → (s : ℕ) × (read_le 2 bs ≡ some (s, []))
unfolding read_le
read_two [] e = absurd (omega arith)
read_two (a ∷ []) e = absurd (omega arith)
read_two (a ∷ b ∷ []) e = (a + 256 * (b + 256 * 0), refl)
read_two (a ∷ b ∷ c ∷ bs) e = absurd (omega arith)

-- Two bytes determine the number that they store.
pub read_two-set_ne :
    (bs : List ℕ) (i v old s t : ℕ)
    → length bs ≡ 2
    → AllBytes bs
    → v < 256
    → get_elem? bs i ≡ some old
    → v ≢ old
    → read_le 2 bs ≡ some (s, [])
    → read_le 2 (set bs i v) ≡ some (t, [])
    → t ≢ s
unfolding read_le
read_two-set_ne [] i v old s t e h hv g ne p q = absurd (omega arith)
read_two-set_ne (a ∷ []) i v old s t e h hv g ne p q = absurd (omega arith)
read_two-set_ne (a ∷ b ∷ []) zero v old s t e h hv g ne p q = ground arith
read_two-set_ne (a ∷ b ∷ []) (suc zero) v old s t e h hv g ne p q = ground arith
read_two-set_ne (a ∷ b ∷ []) (suc (suc i)) v old s t e h hv g ne p q = cc
read_two-set_ne (a ∷ b ∷ c ∷ bs) i v old s t e h hv g ne p q = absurd (omega arith)

pub read_two-lt : (bs : List ℕ) (s : ℕ) → AllBytes bs → read_le 2 bs ≡ some (s, []) → s < 2 ^ 16
unfolding read_le
read_two-lt [] s h e = cc
read_two-lt (a ∷ []) s h e = cc
read_two-lt (a ∷ b ∷ bs) s h e = ground arith

-- One turn of the receive loop, at a message whose last two bytes are known.
pub receive-split :
    (max : ℕ) (head last : List ℕ) (s : ℕ)
    → length last ≡ 2
    → length (head ++ last) ≤ max
    → read_le 2 last ≡ some (s, [])
    → receive max (head ++ last) ≡ (
        if u16 (checksum head + 2 ^ 16 - s) == 0
        then delivered (getrecvframe (head ++ last) s)
        else discarded)
unfolding receive
receive-split max head last s two fits e =
    let len : length (head ++ last) - 2 ≡ length head = omega (arith, length-append head last) in
    let front : take (length (head ++ last) - 2) (head ++ last) ≡ head =
      take-append_of _ head last len in
    let back : drop (length (head ++ last) - 2) (head ++ last) ≡ last =
      drop-append_of _ head last len in
    rw (take-all max (head ++ last) fits, back, e, front)

pub length-frame_head : (f : Frame) → IsFrame f → length (frame_head f) ≡ f.size + 10
unfolding frame_head
length-frame_head f v = omega (
  arith,
  length-append (le_bytes 2 f.dest) (le_bytes 8 f.size ++ take f.size f.payload),
  length-append (le_bytes 8 f.size) (take f.size f.payload),
  length-le_bytes 2 f.dest,
  length-le_bytes 8 f.size,
  length-take f.size f.payload,
)

pub frame_head-AllBytes : (f : Frame) → IsFrame f → AllBytes (frame_head f)
unfolding frame_head
frame_head-AllBytes f v =
    All-append IsByte (le_bytes 2 f.dest) (le_bytes 8 f.size ++ take f.size f.payload)
      (le_bytes-AllBytes 2 f.dest)
      (All-append IsByte (le_bytes 8 f.size) (take f.size f.payload) (le_bytes-AllBytes 8 f.size)
        (All-take IsByte f.size f.payload v.bytes))

pub parse_fields :
    (dest size : ℕ) (payload rest : List ℕ) {A : Type 0} (k : ℕ → ℕ → List ℕ → Option A)
    → dest < 2 ^ 16
    → size < 2 ^ 64
    → length payload ≡ size
    → (do
      (d, r) ← read_le 2 (le_bytes 2 dest ++ (le_bytes 8 size ++ (payload ++ rest)))
      (s, r) ← read_le 8 r
      (p, r) ← read_data s r
      k d s p)
      ≡ k dest size payload
parse_fields dest size payload rest k hd hs e = rw (
  read_le-le_bytes 2 dest (le_bytes 8 size ++ (payload ++ rest)) hd,
  read_le-le_bytes 8 size (payload ++ rest) hs,
  ← e,
  read_data-append payload rest,
)

-- The parsed fields, and the bound of the copy: `size + 4` bytes are allocated.
pub getrecvframe-buildsendframe :
    (f : Frame) (sum : ℕ)
    → IsFrame f
    → getrecvframe (frame_head f ++ le_bytes 2 sum) sum ≡ some (record f { checksum = sum })
getrecvframe-buildsendframe f sum v =
    let len : length (frame_head f ++ le_bytes 2 sum) ≡ f.size + 12 = omega (
      arith,
      length-append (frame_head f) (le_bytes 2 sum),
      length-frame_head f v,
      length-le_bytes 2 sum,
    ) in
    let whole : take f.size f.payload ≡ f.payload = take-all f.size f.payload (omega arith) in
    let room : leb f.size (sub_size (f.size + 12) 8) ≡ true = ground arith in
    let e : frame_head f ++ le_bytes 2 sum
        ≡ le_bytes 2 f.dest ++ (le_bytes 8 f.size ++ (f.payload ++ le_bytes 2 sum)) =
      unfold frame_head in rw (whole, append_assoc, append_assoc) refl in
    unfold getrecvframe in
    rw (
      len,
      e,
      parse_fields f.dest f.size f.payload (le_bytes 2 sum) {A = Frame}
          (λ d s p.
            if leb s (sub_size (f.size + 12) 8)
            then some (record { dest = d; size = s; payload = p; checksum = sum })
            else none)
          v.dest_in (omega arith) v.sized,
      room,
    )
