-- ===== src/Net/Frag/Laws.antt =====
-- What the fragments of a packet are, that they fit the link, and that the loops end.
use network_layer_full.Base.{
  ℕ, zero, suc, ◌+◌, ◌-◌, ◌%◌, ◌^◌, ◌≤◌, ◌<◌, ◌≡◌, refl, ◌∙◌, Bool, false, Bool-cases, inl, inr,
  none, some, List, [], ◌∷◌, ◌++◌, arith, if◌then◌else◌, leb, ◌==◌, length, length-drop,
  length-take, take, take-all, drop, drop-drop, take-append-drop, sub_size, All, append-nil,
  lt→not_leb,
}
use network_layer_full.Net.Datagram.{net_header_size, offset_of, more_bit, with_more}
use network_layer_full.Net.Frag.{Fragment, addheader, frag_size, frag_loop, fragpack, fragpack2}

-- The flag of a fragment.
abbrev pub flag : Bool → ℕ
flag mark = if mark then 2 ^ 15 else 0

-- The fragments of the bytes `d` that start at `position`: all but the last have `fs` bytes and
-- the flag, and the last has the rest, between 1 and `fs` bytes.
abbrev pub IsCut : ℕ → Bool → ℕ → List ℕ → List Fragment → Type 0
IsCut fs mark position d [] = ⊥
IsCut fs mark position d (g ∷ []) =
    (g.payload ≡ d)
    × (g.size ≡ length d)
    × (length d ≤ fs)
    × (0 < length d)
    × (g.frag ≡ position + flag mark)
IsCut fs mark position d (g ∷ h ∷ gs) =
    (g.payload ≡ take fs d)
    × (g.size ≡ fs)
    × (fs < length d)
    × (g.frag ≡ position + 2 ^ 15)
    × IsCut fs mark (position + fs) (drop fs d) (h ∷ gs)

pub frag_size_bounds :
    (mtu : ℕ)
    → 28 ≤ mtu
    → mtu < 2 ^ 16
    → (8 ≤ frag_size mtu) × (frag_size mtu + net_header_size ≤ mtu) × (frag_size mtu % 8 ≡ 0)
unfolding frag_size
frag_size_bounds mtu h k = omega arith

IsCut-last :
    (fs : ℕ) (mark : Bool) (position n : ℕ) (d : List ℕ)
    → n ≡ length d
    → position < 2 ^ 15
    → 0 < n
    → n ≤ fs
    → IsCut fs mark position d
        (addheader (take n d) n (if mark then with_more position else position) ∷ [])
unfolding addheader
IsCut-last fs mark position n d e small pos below =
    let whole : take n d ≡ d = take-all n d (omega arith) in
    (rw (whole, whole), e, omega arith, omega arith, ground arith)

IsCut-cons :
    (fs : ℕ) (mark : Bool) (position : ℕ) (d : List ℕ) (frags : List Fragment)
    → position < 2 ^ 15
    → fs < length d
    → IsCut fs mark (position + fs) (drop fs d) frags
    → IsCut fs mark position d (addheader (take fs d) fs (with_more position) ∷ frags)
unfolding addheader
IsCut-cons fs mark position d [] small more cut = absurd cut
IsCut-cons fs mark position d (h ∷ gs) small more cut =
    let whole : take fs (take fs d) ≡ take fs d =
      take-all fs (take fs d) (omega (arith, length-take fs d)) in
    (whole, refl, more, ground arith, cut)

-- With fragments of at least one byte the loop ends within as many rounds as there are bytes.
frag_loop-IsCut :
    (fuel : ℕ) (mark : Bool) (fs pack_off : ℕ) (bytes : List ℕ) (size off : ℕ)
    → length bytes ≡ size
    → 0 < fs
    → off < size
    → size < off + fuel
    → size + pack_off ≤ 2 ^ 15
    → (frags : List Fragment) × (frag_loop fuel mark fs pack_off bytes size off ≡ some frags)
      × IsCut fs mark (off + pack_off) (drop off bytes) frags
unfolding frag_loop
frag_loop-IsCut zero mark fs pack_off bytes size off len pos below enough fits =
    absurd (omega arith)
frag_loop-IsCut (suc fuel) mark fs pack_off bytes size off len pos below enough fits =
    let rest_len = length-drop off bytes in
    elim (Bool-cases (leb (sub_size size off) fs)) [
      | inl last ↦ (
        addheader (take (size - off) (drop off bytes)) (size - off)
              (if mark then with_more (off + pack_off) else off + pack_off)
            ∷ [],
        rw last,
        IsCut-last fs mark (off + pack_off) (size - off) (drop off bytes) (omega arith)
            (omega arith) (omega arith) (ground arith),
      )
      | inr more ↦
          let ih =
            frag_loop-IsCut fuel mark fs pack_off bytes size (off + fs) len pos (ground arith)
              (omega arith) fits in
          let next : off + fs + pack_off ≡ off + pack_off + fs = omega arith in
          let cut : IsCut fs mark (off + pack_off + fs) (drop fs (drop off bytes)) ih.0 =
            rw (← next, drop-drop fs off bytes) ih.2 in
          (
            addheader (take fs (drop off bytes)) fs (with_more (off + pack_off)) ∷ ih.0,
            rw (more, ih.1),
            IsCut-cons fs mark (off + pack_off) (drop off bytes) ih.0 (omega arith) (ground arith)
                cut,
          )
    ]

-- The payloads in order are the bytes that were cut.
abbrev pub payloads : List Fragment → List ℕ
payloads [] = []
payloads (g ∷ gs) = g.payload ++ payloads gs

payloads-IsCut :
    (fs : ℕ) (mark : Bool) (position : ℕ) (d : List ℕ) (frags : List Fragment)
    → IsCut fs mark position d frags
    → payloads frags ≡ d
payloads-IsCut fs mark position d [] cut = absurd cut
payloads-IsCut fs mark position d (g ∷ []) cut = rw (cut.0, append-nil)
payloads-IsCut fs mark position d (g ∷ h ∷ gs) cut =
    rw (cut.0, payloads-IsCut fs mark (position + fs) (drop fs d) (h ∷ gs) cut.4, take-append-drop)

-- Every fragment fits the link, header and checksum included.
IsCut-fits :
    (fs mtu : ℕ) (mark : Bool) (position : ℕ) (d : List ℕ) (frags : List Fragment)
    → fs + net_header_size ≤ mtu
    → IsCut fs mark position d frags
    → All (λ g. g.size + net_header_size ≤ mtu) frags
IsCut-fits fs mtu mark position d [] h cut = absurd cut
IsCut-fits fs mtu mark position d (g ∷ []) h cut = (omega arith, tt)
IsCut-fits fs mtu mark position d (g ∷ k ∷ gs) h cut =
    (omega arith, IsCut-fits fs mtu mark (position + fs) (drop fs d) (k ∷ gs) h cut.4)

-- A packet that does not fit the link (of at least 28 bytes) and whose last offset fits 15 bits is
-- cut in finitely many rounds, one for each byte being enough, into fragments whose payloads are
-- in order the packet's bytes; each fits the link with its header; all but the last are of one
-- size, a multiple of 8, and carry the flag, the last carries it exactly when the packet is itself
-- a fragment that is not the last; and the offsets are the positions of the payloads, counted
-- from the packet's own.
pub fragpack2_lem :
    (fuel : ℕ) (bytes : List ℕ) (size mtu offset : ℕ)
    → length bytes ≡ size
    → mtu < size + net_header_size
    → 28 ≤ mtu
    → mtu < 2 ^ 16
    → offset < 2 ^ 16
    → size + offset_of offset ≤ 2 ^ 15
    → size < fuel
    → (frags : List Fragment) × (fragpack2 fuel bytes size mtu offset ≡ some (1, frags))
      × IsCut (frag_size mtu) (more_bit offset == 1) (offset_of offset) bytes frags
      × (payloads frags ≡ bytes)
      × All (λ g. g.size + net_header_size ≤ mtu) frags
      × (frag_size mtu % 8 ≡ 0)
unfolding fragpack2
fragpack2_lem fuel bytes size mtu offset len big low high ho fits enough =
    let fs = frag_size_bounds mtu low high in
    let mark = more_bit offset == 1 in
    let cut =
      frag_loop-IsCut fuel mark (frag_size mtu) (offset_of offset) bytes size 0 len (omega arith)
        (omega arith) (omega arith) fits in
    let start : 0 + offset_of offset ≡ offset_of offset = omega arith in
    let cut' : IsCut (frag_size mtu) mark (offset_of offset) bytes cut.0 = rw start at cut.2 in
    (
      cut.0,
      rw (lt→not_leb (size + net_header_size) mtu big, cut.1),
      cut',
      payloads-IsCut (frag_size mtu) mark (offset_of offset) bytes cut.0 cut',
      IsCut-fits (frag_size mtu) mtu mark (offset_of offset) bytes cut.0 fs.1 cut',
      fs.2,
    )

-- For a packet without the flag, `fragpack` and `fragpack2` give the same.
pub fragpack-eq-fragpack2 :
    (fuel : ℕ) (bytes : List ℕ) (size mtu offset : ℕ)
    → offset < 2 ^ 15
    → fragpack fuel bytes size mtu offset ≡ fragpack2 fuel bytes size mtu offset
unfolding fragpack fragpack2
fragpack-eq-fragpack2 fuel bytes size mtu offset h =
    let clear : (more_bit offset == 1) ≡ false = ground arith in rw clear

-- What the layer above sends, with offset 0 and at most 2 ^ 15 bytes, `fragpack` cuts in the same
-- way if it does not fit a link of at least 28 bytes; the last fragment has the flag clear.
pub fragpack_lem :
    (fuel : ℕ) (bytes : List ℕ) (size mtu : ℕ)
    → length bytes ≡ size
    → mtu < size + net_header_size
    → 28 ≤ mtu
    → mtu < 2 ^ 16
    → size ≤ 2 ^ 15
    → size < fuel
    → (frags : List Fragment) × (fragpack fuel bytes size mtu 0 ≡ some (1, frags))
      × IsCut (frag_size mtu) false 0 bytes frags
fragpack_lem fuel bytes size mtu len big low high fits enough =
    let cut =
      fragpack2_lem fuel bytes size mtu 0 len big low high (omega arith) (omega arith) enough in
    (cut.0, fragpack-eq-fragpack2 fuel bytes size mtu 0 (omega arith) ∙ cut.1, cut.2)

frag_loop_endless :
    (fuel : ℕ) (mark : Bool) (pack_off : ℕ) (bytes : List ℕ) (size : ℕ)
    → 0 < size
    → size < 2 ^ 64
    → frag_loop fuel mark 0 pack_off bytes size 0 ≡ none
unfolding frag_loop
frag_loop_endless zero mark pack_off bytes size pos small = refl
frag_loop_endless (suc fuel) mark pack_off bytes size pos small =
    let more : leb (sub_size size 0) 0 ≡ false = ground arith in
    rw (more, frag_loop_endless fuel mark pack_off bytes size pos small)

-- On a link whose MTU is at least the header and less than 8 bytes above it, a packet that does
-- not fit is never cut: both loops go on for ever, whatever the fuel.
pub fragpack_endless :
    (fuel : ℕ) (bytes : List ℕ) (size mtu offset : ℕ)
    → 0 < size
    → size < 2 ^ 64
    → net_header_size ≤ mtu
    → mtu < 28
    → mtu < size + net_header_size
    → (fragpack fuel bytes size mtu offset ≡ none) × (fragpack2 fuel bytes size mtu offset ≡ none)
unfolding fragpack fragpack2 frag_size
fragpack_endless fuel bytes size mtu offset pos small low high big =
    let nothing : frag_size mtu ≡ 0 = omega arith in
    let cut = lt→not_leb (size + net_header_size) mtu big in
    (
      rw (cut, nothing, frag_loop_endless fuel false (offset_of offset) bytes size pos small),
      rw (
        cut,
        nothing,
        frag_loop_endless fuel (more_bit offset == 1) (offset_of offset) bytes size pos small,
      ),
    )
