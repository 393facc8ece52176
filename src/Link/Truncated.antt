-- ===== src/Link/Truncated.antt =====
-- A frame that is longer than the receiver's buffer.
use network_layer_full.Base.{
  ℕ, zero, suc, ◌+◌, ◌-◌, ◌^◌, ◌≤◌, ◌<◌, ◌≡◌, refl, ap, ◌∙◌, Bool, true, false, Bool-cases, inl,
  inr, Option, none, some, List, [], ◌∷◌, ◌++◌, append_assoc, arith, ◌==◌, length, length-take,
  take, take-append_ge, le_bytes, length-le_bytes, read_le-le_bytes, read_data, u16,
}
use network_layer_full.Checksum.{checksum}
use network_layer_full.Link.Codec.{
  Frame, frame_head, buildsendframe, getrecvframe, Arrival, accepted, discarded, fault,
  stored_checksum, check, receive,
}

abbrev pub is_accepted : Arrival → Bool
is_accepted (accepted f) = true
is_accepted discarded = false
is_accepted fault = false

read_data-short : (n : ℕ) (d : List ℕ) → length d < n → read_data n d ≡ none
unfolding read_data
read_data-short zero d h = absurd (omega arith)
read_data-short (suc n) [] h = refl
read_data-short (suc n) (b ∷ d) h = rw (read_data-short n d (omega arith))

getrecvframe-short :
    (dest size sum : ℕ) (rest : List ℕ)
    → dest < 2 ^ 16
    → size < 2 ^ 64
    → length rest < size
    → getrecvframe (le_bytes 2 dest ++ (le_bytes 8 size ++ rest)) sum ≡ none
unfolding getrecvframe
getrecvframe-short dest size sum rest dest_in size_in short = rw (
  read_le-le_bytes 2 dest (le_bytes 8 size ++ rest) (omega arith),
  read_le-le_bytes 8 size rest (omega arith),
  read_data-short size rest short,
)

check-short :
    (buf : List ℕ) (o : Option ℕ)
    → ((sum : ℕ) → getrecvframe buf sum ≡ none)
    → is_accepted (check buf o) ≡ false
unfolding check
check-short buf none h = refl
check-short buf (some sum) h =
    elim (Bool-cases (u16 (checksum (take (length buf - 2) buf) + 2 ^ 16 - sum) == 0)) [
      | inl right ↦ rw (right, h sum)
      | inr wrong ↦ rw wrong
    ]

-- A frame whose header of 10 bytes and payload are longer than the buffer of the receiver, of at
-- least 10 bytes, is not accepted when it arrives as it was sent.
pub receive-truncated :
    (max : ℕ) (f : Frame)
    → f.dest < 2 ^ 16
    → f.size < 2 ^ 64
    → 10 ≤ max
    → max < f.size + 10
    → is_accepted (receive max (buildsendframe f).1) ≡ false
unfolding receive buildsendframe frame_head
receive-truncated max f dest_in size_in low over =
    let payload = take f.size f.payload in
    let sum = checksum (le_bytes 2 f.dest ++ (le_bytes 8 f.size ++ payload)) in
    let rest = payload ++ le_bytes 2 sum in
    let cut = take (max - 10) rest in
    let whole : (le_bytes 2 f.dest ++ (le_bytes 8 f.size ++ payload)) ++ le_bytes 2 sum
        ≡ le_bytes 2 f.dest ++ (le_bytes 8 f.size ++ rest) =
      append_assoc (le_bytes 2 f.dest) (le_bytes 8 f.size ++ payload) (le_bytes 2 sum)
      ∙ ap (λ t. le_bytes 2 f.dest ++ t)
          (append_assoc (le_bytes 8 f.size) payload (le_bytes 2 sum)) in
    let two = length-le_bytes 2 f.dest in
    let eight = length-le_bytes 8 f.size in
    let left : max - length (le_bytes 2 f.dest) - length (le_bytes 8 f.size) ≡ max - 10 =
      omega (arith, two, eight) in
    let front : take max (le_bytes 2 f.dest ++ (le_bytes 8 f.size ++ rest))
        ≡ le_bytes 2 f.dest ++ (le_bytes 8 f.size ++ cut) =
      take-append_ge max (le_bytes 2 f.dest) (le_bytes 8 f.size ++ rest) (omega (arith, two))
      ∙ ap (λ t. le_bytes 2 f.dest ++ t)
          (take-append_ge (max - length (le_bytes 2 f.dest)) (le_bytes 8 f.size) rest
              (omega (arith, two, eight))
            ∙ ap (λ n. le_bytes 8 f.size ++ take n rest) left) in
    let buf = le_bytes 2 f.dest ++ (le_bytes 8 f.size ++ cut) in
    let short : length cut < f.size = omega (arith, length-take (max - 10) rest) in
    rw (whole, front)
      (check-short buf (stored_checksum buf)
        (λ sum'. getrecvframe-short f.dest f.size sum' cut dest_in size_in short))
