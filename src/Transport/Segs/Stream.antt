-- ===== src/Transport/Segs/Stream.antt =====
-- Segments cut from one byte stream reach the application as a prefix of that stream, in
-- whatever order and however often they arrive.
use network_layer_full.Base.{
  ℕ, zero, suc, ◌+◌, ◌%◌, ◌≤◌, ◌<◌, ◌≡◌, ◌≢◌, ◌⊎◌, inl, inr, refl, ap, ◌∙◌, Bool-cases, Option,
  none, some, List, [], ◌∷◌, ◌++◌, append-nil, append_assoc, arith, ◌==◌, All, length, take,
  take-append-take, drop, u32, eq→==, ne→not_==, ==_iff,
}
use native.Mathlib.Decide.{ℕ_discrete}
use network_layer_full.Transport.Segment.{Segment, max_seq_num}
use network_layer_full.Transport.Segs.{
  Entry, keep, is_next, insert_seg_lst, Outcome, move, drain, insert_seg,
}

-- The bytes that the entries hold for the application.
unfoldable pub content : List Entry → List ℕ
content [] = []
content (e ∷ es) = take e.size e.segm.payload ++ content es

pub content-append : (xs ys : List Entry) → content (xs ++ ys) ≡ content xs ++ content ys
unfolding content
content-append [] ys = refl
content-append (e ∷ es) ys =
    rw (content-append es ys, append_assoc (take e.size e.segm.payload) (content es) (content ys))

module _ (stream : List ℕ) (first : ℕ) where
  -- A piece of the stream from some position on; byte 0 has the sequence number `first`.
  pub record IsPiece (e : Entry) : Type 0 where
    pub at : ℕ
    pub numbered : e.segm.seq_num ≡ (first + at) % max_seq_num
    pub inside : at + e.size ≤ length stream
    pub same : take e.size e.segm.payload ≡ take e.size (drop at stream)

  -- What `is_next` finds among `n` pieces.
  abbrev Taken : ℕ → ℕ → Option (Entry × List Entry) → Type 0
  Taken n base none = Unit
  Taken n base (some (e, rest)) =
      IsPiece e × All IsPiece rest × (e.segm.seq_num ≡ base) × (n ≡ suc (length rest))

  keep-Taken :
      (n base : ℕ) (x : Entry) (o : Option (Entry × List Entry))
      → IsPiece x
      → Taken n base o
      → Taken (suc n) base (keep x o)
  keep-Taken n base x none hx t = tt
  keep-Taken n base x (some (e, rest)) hx t = (t.0, (hx, t.1), t.2, ap suc t.3)

  is_next-Taken :
      (es : List Entry) (base : ℕ) → All IsPiece es → Taken (length es) base (is_next es base)
  unfolding is_next
  is_next-Taken [] base h = tt
  is_next-Taken (x ∷ xs) base h = elim (Bool-cases (x.segm.seq_num == base)) [
    | inl found ↦ rw found (h.0, h.1, (==_iff x.segm.seq_num base).0 found, refl)
    | inr on ↦
        rw on (keep-Taken (length xs) base x (is_next xs base) h.0 (is_next-Taken xs base h.1))
  ]

  insert_seg_lst-All :
      (es : List Entry) (seg : Segment) (size : ℕ)
      → All IsPiece es
      → IsPiece (record { segm = seg; size = size })
      → All IsPiece (insert_seg_lst es seg size)
  unfolding insert_seg_lst
  insert_seg_lst-All [] seg size h p = (p, tt)
  insert_seg_lst-All (x ∷ xs) seg size h p = elim (Bool-cases (x.segm.seq_num == seg.seq_num)) [
    | inl found ↦ rw found h
    | inr on ↦ rw on (h.0, insert_seg_lst-All xs seg size h.1 p)
  ]

  -- The receiver has `r` bytes of the stream, of which the application has read `consumed`.
  pub record InStep (consumed : List ℕ) (r : ℕ) (lst lst_aux : List Entry) : Type 0 where
    pub prefix : consumed ++ content lst ≡ take r stream
    pub inside : r ≤ length stream
    pub early : All IsPiece lst_aux

  -- A piece that is next in the stream goes to the end of the list.
  InStep-next :
      (consumed : List ℕ) (r : ℕ) (lst : List Entry) (e : Entry) (rest : List Entry)
      → length stream < max_seq_num
      → InStep consumed r lst rest
      → IsPiece e
      → e.segm.seq_num ≡ (first + r) % max_seq_num
      → InStep consumed (r + e.size) (lst ++ (e ∷ [])) rest
  unfolding content
  InStep-next consumed r lst e rest short v p num =
      let here : p.at ≡ r = omega (arith, p.numbered, p.inside, v.inside) in
      let piece : take e.size e.segm.payload ≡ take e.size (drop r stream) = rw (← here) p.same in
      record {
        prefix =
            rw
              (
                content-append lst (e ∷ []),
                append-nil (take e.size e.segm.payload),
                ← append_assoc consumed (content lst) (take e.size e.segm.payload),
                v.prefix,
                piece,
              )
              (take-append-take r e.size stream);
        inside = omega (arith, p.inside);
        early = v.early;
      }

  -- What the moving loop leaves: `k` more bytes are in step, the return value has grown by `k`,
  -- and the piece after them is not among the early ones.
  pub record Drained (consumed : List ℕ) (r ret : ℕ) (out : Outcome) : Type 0 where
    pub moved : ℕ
    pub counted : out.ret ≡ ret + moved
    pub in_step : InStep consumed (r + moved) out.lst out.lst_aux
    pub gap : is_next out.lst_aux ((first + (r + moved)) % max_seq_num) ≡ none

  Drained-more :
      (consumed : List ℕ) (r ret n : ℕ) (out : Outcome)
      → Drained consumed (r + n) (ret + n) out
      → Drained consumed r ret out
  Drained-more consumed r ret n out d =
      let e : r + n + d.moved ≡ r + (n + d.moved) = omega arith in
      record {
        moved = n + d.moved;
        counted = omega (arith, d.counted);
        in_step = rw (← e) d.in_step;
        gap = rw (← e) d.gap;
      }

  move-Drained :
      (more : List Entry → List Entry → ℕ → ℕ → Outcome) (fuel : ℕ) (consumed : List ℕ) (r : ℕ)
      (lst lst_aux : List Entry) (count ret : ℕ) (o : Option (Entry × List Entry))
      → ((r' : ℕ) (lst' aux' : List Entry) (count' ret' : ℕ)
          → length aux' < fuel
          → count' ≡ (first + r') % max_seq_num
          → ret' ≤ r'
          → InStep consumed r' lst' aux'
          → Drained consumed r' ret' (more lst' aux' count' ret'))
      → length stream < max_seq_num
      → length lst_aux < suc fuel
      → count ≡ (first + r) % max_seq_num
      → ret ≤ r
      → InStep consumed r lst lst_aux
      → is_next lst_aux count ≡ o
      → Taken (length lst_aux) count o
      → Drained consumed r ret (move more lst lst_aux count ret o)
  unfolding move
  move-Drained more fuel consumed r lst lst_aux count ret none ih short enough ec le v e t =
      let here : r + 0 ≡ r = omega arith in
      record { moved = 0; counted = omega arith; in_step = rw here v; gap = rw (here, ← ec) e }
  move-Drained more fuel consumed r lst lst_aux count ret (some (x, rest)) ih short enough ec le v e
        t =
      let v' : InStep consumed r lst rest = record {
        prefix = v.prefix;
        inside = v.inside;
        early = t.1;
      } in
      let next = InStep-next consumed r lst x rest short v' t.0 (t.2 ∙ ec) in
      let small : u32 (ret + x.size) ≡ ret + x.size = omega (arith, next.inside) in
      rw small (
        Drained-more consumed r ret x.size
          (more (lst ++ (x ∷ [])) rest ((count + x.size) % max_seq_num) (ret + x.size))
          (ih (r + x.size) (lst ++ (x ∷ [])) rest ((count + x.size) % max_seq_num) (ret + x.size)
            (omega (arith, t.3)) (omega arith) (omega arith) next))

  drain-Drained :
      (fuel : ℕ) (consumed : List ℕ) (r : ℕ) (lst lst_aux : List Entry) (count ret : ℕ)
      → length stream < max_seq_num
      → length lst_aux < fuel
      → count ≡ (first + r) % max_seq_num
      → ret ≤ r
      → InStep consumed r lst lst_aux
      → Drained consumed r ret (drain fuel lst lst_aux count ret)
  unfolding drain
  drain-Drained zero consumed r lst lst_aux count ret short enough ec le v = absurd (omega arith)
  drain-Drained (suc fuel) consumed r lst lst_aux count ret short enough ec le v =
      move-Drained (drain fuel) fuel consumed r lst lst_aux count ret (is_next lst_aux count)
        (λ r' lst' aux' count' ret' en ec' le' v'.
          drain-Drained fuel consumed r' lst' aux' count' ret' short en ec' le' v')
        short enough ec le v refl (is_next-Taken lst_aux count v.early)

  pub insert_seg-InStep :
      (consumed : List ℕ) (r : ℕ) (lst lst_aux : List Entry) (seg : Segment) (size : ℕ)
      → length stream < max_seq_num
      → InStep consumed r lst lst_aux
      → IsPiece (record { segm = seg; size = size })
      → let out = insert_seg lst lst_aux seg size ((first + r) % max_seq_num) in
        InStep consumed (r + out.ret) out.lst out.lst_aux
        × ((seg.seq_num ≢ (first + r) % max_seq_num)
            ⊎ ((size ≤ out.ret)
                × (is_next out.lst_aux ((first + (r + out.ret)) % max_seq_num) ≡ none)))
  unfolding insert_seg
  insert_seg-InStep consumed r lst lst_aux seg size short v p =
      elim (ℕ_discrete seg.seq_num ((first + r) % max_seq_num)) [
        | yes now ↦
            let x : Entry = record { segm = seg; size = size } in
            let hit = eq→== seg.seq_num ((first + r) % max_seq_num) now in
            let next = InStep-next consumed r lst x lst_aux short v p now in
            let small : u32 size ≡ size = omega (arith, next.inside) in
            let out =
              drain-Drained (suc (length lst_aux)) consumed (r + size) (lst ++ (x ∷ [])) lst_aux
                (((first + r) % max_seq_num + size) % max_seq_num) size short (omega arith)
                (omega arith) (omega arith) next in
            let all : r + size + out.moved ≡ r + (size + out.moved) = omega arith in
            rw (hit, small, out.counted, ← all) (out.in_step, inr (omega arith, out.gap))
        | no later ↦
            let miss = ne→not_== seg.seq_num ((first + r) % max_seq_num) later in
            let here : r + 0 ≡ r = omega arith in
            rw (miss, here)
              (
                record {
                  prefix = v.prefix;
                  inside = v.inside;
                  early = insert_seg_lst-All lst_aux seg size v.early p;
                },
                inl later,
              )
      ]
