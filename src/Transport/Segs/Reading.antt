-- ===== src/Transport/Segs/Reading.antt =====
-- The application reads the stream from its beginning, without gaps.
use network_layer_full.Base.{
  ℕ, zero, suc, ◌+◌, ◌-◌, ◌%◌, ◌≤◌, ◌<◌, ◌≡◌, refl, ap, ◌∙◌, List, [], ◌∷◌, ◌++◌, append-nil,
  append_assoc, arith, All, length, length-append, take, u32, take-all, take-append-take,
  length-take, drop, lt→not_leb, le→leb, ne→not_==, eq→==, min,
}
use native.Mathlib.Decide.{ℕ_discrete, dec_le}
use network_layer_full.Transport.Segment.{Segment, max_seq_num}
use network_layer_full.Transport.Segs.{Entry, insert_seg, recv_seg, Receiver, arrive, read}
use network_layer_full.Transport.Segs.Stream.{content, IsPiece, InStep, insert_seg-InStep}

-- An entry with as many bytes as it says.
abbrev pub IsWhole : Entry → Type 0
IsWhole e = length e.segm.payload ≡ e.size

-- Nothing is lost or doubled between the buffer and the list.
recv_seg-append :
    (es : List Entry) (size : ℕ) → (recv_seg es size).0 ++ content (recv_seg es size).1 ≡ content es
unfolding recv_seg content
recv_seg-append [] size = refl
recv_seg-append (e ∷ es) size = elim (ℕ_discrete size 0) [
  | yes stop ↦ rw (eq→== size 0 stop)
  | no go ↦ elim (dec_le e.size size) [
    | yes all ↦ rw (
      ne→not_== size 0 go,
      le→leb e.size size all,
      append_assoc (take e.size e.segm.payload) (recv_seg es (size - e.size)).0
          (content (recv_seg es (size - e.size)).1),
      recv_seg-append es (size - e.size),
    )
    | no part ↦
        let left = take (e.size - size) (drop size e.segm.payload) in
        let whole : take (e.size - size) left ≡ left =
          take-all (e.size - size) left
            (omega (arith, length-take (e.size - size) (drop size e.segm.payload))) in
        let sum : size + (e.size - size) ≡ e.size = omega arith in
        rw (
          ne→not_== size 0 go,
          lt→not_leb e.size size (omega arith),
          whole,
          ← append_assoc (take size e.segm.payload) left (content es),
          take-append-take size (e.size - size) e.segm.payload,
          sum,
        )
  ]
]

-- As many bytes as asked for, if there are so many.
pub length-recv_seg :
    (es : List Entry) (size : ℕ)
    → All IsWhole es
    → length (recv_seg es size).0 ≡ min size (length (content es))
unfolding recv_seg content
length-recv_seg [] size h = omega arith
length-recv_seg (e ∷ es) size h =
    let len = length-append (take e.size e.segm.payload) (content es) in
    let own : length (take e.size e.segm.payload) ≡ e.size =
      omega (arith, length-take e.size e.segm.payload, h.0) in
    elim (ℕ_discrete size 0) [
      | yes stop ↦ rw (eq→== size 0 stop) (omega arith)
      | no go ↦ elim (dec_le e.size size) [
        | yes all ↦
            rw (ne→not_== size 0 go, le→leb e.size size all)
              (omega (
                arith,
                len,
                length-recv_seg es (size - e.size) h.1,
                length-append (take e.size e.segm.payload) (recv_seg es (size - e.size)).0,
              ))
        | no part ↦
            rw (ne→not_== size 0 go, lt→not_leb e.size size (omega arith))
              (omega (arith, len, length-take size e.segm.payload, h.0))
      ]
    ]

split_at {ℓ} :
    {A : Type ℓ} (xs ys : List A) (n : ℕ)
    → length xs ≡ min n (length (xs ++ ys))
    → (xs ≡ take n (xs ++ ys)) × (ys ≡ drop n (xs ++ ys))
split_at [] ys zero e = (refl, refl)
split_at [] [] (suc n) e = (refl, refl)
split_at [] (y ∷ ys) (suc n) e = absurd (omega arith)
split_at (x ∷ xs) ys zero e = absurd (omega arith)
split_at (x ∷ xs) ys (suc n) e =
    let ih = split_at xs ys n (omega arith) in (ap (λ t. x ∷ t) ih.0, ih.1)

-- Reading takes the first `size` bytes that are ready, or all if there are fewer, and leaves the
-- others in order.
pub recv_seg_lem :
    (es : List Entry) (size : ℕ)
    → All IsWhole es
    → ((recv_seg es size).0 ≡ take size (content es))
      × (content (recv_seg es size).1 ≡ drop size (content es))
recv_seg_lem es size h =
    let whole = recv_seg-append es size in
    let cut =
      split_at (recv_seg es size).0 (content (recv_seg es size).1) size
        (rw whole (length-recv_seg es size h)) in
    (cut.0 ∙ ap (take size) whole, cut.1 ∙ ap (drop size) whole)

-- What happens at a receiver: a segment of `size` payload bytes arrives, or the application asks
-- for `size` bytes.
pub data Event : Type 0 where
  arrives : Segment → ℕ → Event
  reads : ℕ → Event

-- The bytes that the application has read in the end, and the receiver.
unfoldable pub run : Receiver → List Event → List ℕ × Receiver
run s [] = ([], s)
run s (arrives seg size ∷ events) = run (arrive s seg size) events
run s (reads size ∷ events) =
    let (now, s') = read s size in let (later, s'') = run s' events in (now ++ later, s'')

module _ (stream : List ℕ) (first : ℕ) where
  -- Every segment that arrives is a piece of the stream.
  abbrev pub AllPieces : List Event → Type 0
  AllPieces [] = Unit
  AllPieces (arrives seg size ∷ events) =
      IsPiece stream first (record { segm = seg; size = size }) × AllPieces events
  AllPieces (reads size ∷ events) = AllPieces events

  -- The receiver, after the application has read `consumed`.
  record IsAt (consumed : List ℕ) (r : ℕ) (s : Receiver) : Type 0 where
    expects : s.seq_num_r ≡ (first + r) % max_seq_num
    in_step : InStep stream first consumed r s.segs s.segs_aux

  arrive-IsAt :
      (consumed : List ℕ) (r : ℕ) (s : Receiver) (seg : Segment) (size : ℕ)
      → first + length stream < max_seq_num
      → IsAt consumed r s
      → IsPiece stream first (record { segm = seg; size = size })
      → (k : ℕ) × IsAt consumed (r + k) (arrive s seg size)
  unfolding arrive
  arrive-IsAt consumed r s seg size short v p =
      let out = insert_seg s.segs s.segs_aux seg size ((first + r) % max_seq_num) in
      let kept =
        insert_seg-InStep stream first consumed r s.segs s.segs_aux seg size (omega arith) v.in_step
          p in
      let inside = kept.0.inside in
      let same : u32 ((first + r) % max_seq_num + out.ret) ≡ (first + r) % max_seq_num + out.ret =
        omega arith in
      (out.ret, rw (v.expects, same) (record { expects = omega arith; in_step = kept.0 }))

  read-IsAt :
      (consumed : List ℕ) (r : ℕ) (s : Receiver) (size : ℕ)
      → IsAt consumed r s
      → IsAt (consumed ++ (read s size).0) r (read s size).1
  unfolding read
  read-IsAt consumed r s size v = record {
    expects = v.expects;
    in_step = record {
      prefix =
          append_assoc consumed (recv_seg s.segs size).0 (content (recv_seg s.segs size).1)
          ∙ ap (λ t. consumed ++ t) (recv_seg-append s.segs size)
          ∙ v.in_step.prefix;
      inside = v.in_step.inside;
      early = v.in_step.early;
    };
  }

  run-IsAt :
      (events : List Event) (consumed : List ℕ) (r : ℕ) (s : Receiver)
      → first + length stream < max_seq_num
      → IsAt consumed r s
      → AllPieces events
      → (k : ℕ) × IsAt (consumed ++ (run s events).0) k (run s events).1
  unfolding run
  run-IsAt [] consumed r s short v h = (r, rw append-nil v)
  run-IsAt (arrives seg size ∷ events) consumed r s short v h =
      let now = arrive-IsAt consumed r s seg size short v h.0 in
      run-IsAt events consumed (r + now.0) (arrive s seg size) short now.1 h.1
  run-IsAt (reads size ∷ events) consumed r s short v h =
      let now = read-IsAt consumed r s size v in
      let rest = run-IsAt events (consumed ++ (read s size).0) r (read s size).1 short now h in
      (rest.0, rw (← append_assoc consumed (read s size).0 (run (read s size).1 events).0) rest.1)

  -- A receiver that expects the first byte of a stream, whose numbers stay below `max_seq_num`, and to which only pieces of that stream arrive, in whatever order and however often: what
  -- the application has read, followed by what is ready for it, is the beginning of the stream of
  -- some length `k`, and `seq_num_r` is the number of the byte behind it.
  pub run-prefix :
      (events : List Event)
      → first + length stream < max_seq_num
      → AllPieces events
      → let start : Receiver = record { seq_num_r = first; segs = []; segs_aux = [] } in
        (k : ℕ) × (k ≤ length stream)
        × ((run start events).0 ++ content (run start events).1.segs ≡ take k stream)
        × ((run start events).1.seq_num_r ≡ (first + k) % max_seq_num)
  run-prefix events short h =
      let start : Receiver = record { seq_num_r = first; segs = []; segs_aux = [] } in
      let v : IsAt [] 0 start = record {
        expects = omega arith;
        in_step = record { prefix = unfold content in refl; inside = omega arith; early = tt };
      } in
      let out = run-IsAt events [] 0 start short v h in
      (out.0, out.1.in_step.inside, out.1.in_step.prefix, out.1.expects)
