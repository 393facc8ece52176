-- ===== src/Application/Messages/Receiving.antt =====
-- A message is read from the stream however its bytes become ready.
use network_layer_full.Base.{
  ℕ, suc, ◌+◌, ◌-◌, ◌^◌, ◌≤◌, ◌<◌, ◌≡◌, refl, sym, ap, subst, ◌∙◌, some, List, [], ◌∷◌, ◌++◌,
  append-nil, append_assoc, arith, leb, ◌==◌, le→leb, All, length, length-append, length-take, take,
  take-all, take-append_le, take-append_ge, drop-append_ge, take-append_of, take-append,
  drop-append, drop, drop-all, drop-append_of, drop-append_le, replicate, All-append, true, false,
  le_bytes, length-le_bytes, read_le-le_bytes_last, u32,
}
use native.Mathlib.Decide.{dec_le}
use network_layer_full.Transport.Segs.{Entry, recv_seg}
use network_layer_full.Transport.Segs.Stream.{content}
use network_layer_full.Transport.Segs.Reading.{IsWhole}
use network_layer_full.Application.Messages.{
  Inbox, Read, and_more, max_buf_length, after_recv, recv_loop, recv_ips, message,
}
use network_layer_full.Application.Messages.Inboxes.{
  incoming, AllWhole, Feeds, incoming-append, recv_seg-both,
}

-- The end of a loop for `n` bytes of the stream: they are read, and one spare call less is left.
record Takes (stream : List ℕ) (spare n : ℕ) (out : Read) : Type 0 where
  inbox : Inbox
  done : out ≡ some (take n stream, inbox)
  feeds : Feeds (drop n stream) spare inbox

-- The loop stops at a call that gives all that is still wanted.
after_recv-stops :
    (more : List (List Entry) → List Entry → ℕ → Read) (later : List (List Entry)) (n : ℕ)
    (bytes : List ℕ) (rest : List Entry)
    → length bytes ≡ n
    → n < 2 ^ 32
    → after_recv (more later) later n (bytes, rest)
      ≡ some (bytes, record { segs = rest; later = later })
unfolding after_recv
after_recv-stops more later n bytes rest len small =
    let stop : (u32 (n + 2 ^ 32 - u32 (length bytes)) == 0) ≡ true = ground (arith, len) in rw stop

after_recv-goes_on :
    (more : List Entry → ℕ → Read) (later : List (List Entry)) (n : ℕ) (bytes : List ℕ)
    (rest : List Entry)
    → length bytes < n
    → n < 2 ^ 32
    → after_recv more later n (bytes, rest) ≡ and_more bytes (more rest (n - length bytes))
unfolding after_recv
after_recv-goes_on more later n bytes rest below small =
    let left : u32 (n + 2 ^ 32 - u32 (length bytes)) ≡ n - length bytes = omega arith in
    let go : (n - length bytes == 0) ≡ false = ground arith in rw (left, go)

-- The call that gives all that is still wanted.
recv_loop-last :
    (until : List (List Entry)) (segs new : List Entry) (spare n : ℕ)
    → All IsWhole segs
    → All IsWhole new
    → AllWhole until
    → n ≤ length (content segs ++ content new)
    → n < 2 ^ 32
    → Takes
        (content segs ++ incoming (new ∷ until))
        spare
        n
        (recv_loop (new ∷ (until ++ replicate spare [])) segs n)
unfolding recv_loop incoming
recv_loop-last until segs new spare n hs hn hu enough small =
    let out = recv_seg-both segs new n hs hn in
    let now = content segs ++ content new in
    let bytes = (recv_seg (segs ++ new) n).0 in
    let rest = (recv_seg (segs ++ new) n).1 in
    let len : length bytes ≡ n = rw out.0 (omega (arith, length-take n now)) in
    let later = until ++ replicate spare [] in
    let joint = append_assoc (content segs) (content new) (incoming until) in
    let front : bytes ≡ take n (content segs ++ (content new ++ incoming until)) =
      out.0 ∙ sym (take-append_le n now (incoming until) enough) ∙ ap (take n) joint in
    let back : drop n (content segs ++ (content new ++ incoming until))
        ≡ content rest ++ incoming until =
      ap (drop n) (sym joint)
      ∙ drop-append_le n now (incoming until) enough
      ∙ ap (λ t. t ++ incoming until) (sym out.1) in
    record {
      inbox = record { segs = rest; later = later };
      done =
          after_recv-stops recv_loop later n bytes rest len small
          ∙ ap (λ (t : List ℕ). some (t, record { segs = rest; later = later })) front;
      feeds = record { until = until; split = refl; whole = out.2; whole_later = hu; bytes = back };
    }

-- A call that gives less than is wanted, before a loop that gives the rest.
Takes-more :
    (now stream : List ℕ) (spare n : ℕ) (out : Read)
    → length now ≤ n
    → Takes stream spare (n - length now) out
    → Takes (now ++ stream) spare n (and_more now out)
Takes-more now stream spare n out below t =
    let sum : length now + (n - length now) ≡ n = omega arith in
    record {
      inbox = t.inbox;
      done = rw (t.done, sym (take-append_ge n now stream below));
      feeds = subst (λ b. Feeds b spare t.inbox) (sym (drop-append_ge n now stream below)) t.feeds;
    }

recv_loop_lem :
    (until : List (List Entry)) (segs : List Entry) (spare n : ℕ)
    → All IsWhole segs
    → AllWhole until
    → n ≤ length (content segs ++ incoming until)
    → n < 2 ^ 32
    → Takes
        (content segs ++ incoming until)
        spare
        n
        (recv_loop (until ++ replicate (suc spare) []) segs n)
unfolding recv_loop incoming content
recv_loop_lem [] segs spare n hs hu enough small =
    recv_loop-last [] segs [] spare n hs tt tt enough small
recv_loop_lem (new ∷ until) segs spare n hs hu enough small =
    let now = content segs ++ content new in
    elim (dec_le n (length now)) [
      | yes all ↦
          let t =
            recv_loop-last (until ++ ([] ∷ [])) segs new spare n hs hu.0
              (All-append (λ (es : List Entry). All IsWhole es) until ([] ∷ []) hu.1 (tt, tt)) all
              small in
          let silent : incoming (until ++ ([] ∷ [])) ≡ incoming until =
            incoming-append until ([] ∷ []) ∙ append-nil (incoming until) in
          let same = append_assoc until ([] ∷ []) (replicate spare []) in rw (← silent, ← same) t
      | no part ↦
          let out = recv_seg-both segs new n hs hu.0 in
          let bytes = (recv_seg (segs ++ new) n).0 in
          let rest = (recv_seg (segs ++ new) n).1 in
          let all_now : bytes ≡ now = out.0 ∙ take-all n now (omega arith) in
          let nothing : content rest ≡ [] = out.1 ∙ drop-all n now (omega arith) in
          let joint = append_assoc (content segs) (content new) (incoming until) in
          let len = length-append now (incoming until) in
          let ih =
            recv_loop_lem until rest spare (n - length bytes) out.2 hu.1
              (rw nothing (rw all_now (omega (arith, len, ap length joint)))) (omega arith) in
          let below : length bytes < n = rw all_now (omega arith) in
          let go =
            after_recv-goes_on (recv_loop (until ++ replicate (suc spare) []))
              (until ++ replicate (suc spare) []) n bytes rest below small in
          rw go (
            subst
              (λ b. Takes b spare n (
                and_more bytes
                  (recv_loop (until ++ replicate (suc spare) []) rest (n - length bytes))))
              (rw (nothing, all_now) joint)
              (Takes-more bytes (content rest ++ incoming until) spare n _ (omega arith) ih))
    ]

-- A loop on the inbox.
recv_loop-Takes :
    (stream : List ℕ) (spare n : ℕ) (i : Inbox)
    → Feeds stream (suc spare) i
    → n ≤ length stream
    → n < 2 ^ 32
    → Takes stream spare n (recv_loop i.later i.segs n)
recv_loop-Takes stream spare n i f enough small =
    rw (f.bytes, f.split)
      (recv_loop_lem f.until i.segs spare n f.whole f.whole_later (rw f.bytes at enough) small)

recv_ips-by :
    (i i' i'' : Inbox) (body : List ℕ)
    → recv_loop i.later i.segs 4 ≡ some (le_bytes 4 (4 + length body), i')
    → recv_loop i'.later i'.segs (length body) ≡ some (body, i'')
    → 4 + length body ≤ 1024
    → recv_ips i ≡ some (le_bytes 4 (4 + length body) ++ body, i'')
unfolding recv_ips
recv_ips-by i i' i'' body first second fits =
    let left : u32 (4 + length body + 2 ^ 32 - 4) ≡ length body = omega arith in
    let fits' : leb (4 + length body) max_buf_length ≡ true =
      le→leb (4 + length body) max_buf_length fits in
    rw (first, read_le-le_bytes_last 4 (4 + length body) (omega arith), left, fits', second)

-- However the bytes of a message and of what follows it become ready, in any pieces and in between
-- the calls of `recv_point`, `recv_ips` reads exactly this message, of at most 1024 bytes with its
-- length, once they are there and `recv_point` is called twice after that, and leaves the rest.
pub recv_ips-message :
    (body stream : List ℕ) (spare : ℕ) (i : Inbox)
    → Feeds (message body ++ stream) (suc (suc spare)) i
    → 4 + length body ≤ 1024
    → (i' : Inbox) × (recv_ips i ≡ some (message body, i')) × Feeds stream spare i'
unfolding message
recv_ips-message body stream spare i f fits =
    let head = le_bytes 4 (4 + length body) in
    let len = length-le_bytes 4 (4 + length body) in
    let whole = head ++ body ++ stream in
    let joint = append_assoc head body stream in
    let total : length ((head ++ body) ++ stream) ≡ 4 + length (body ++ stream) =
      ap length joint
      ∙ length-append head (body ++ stream)
      ∙ ap (λ n. n + length (body ++ stream)) len in
    let first =
      recv_loop-Takes ((head ++ body) ++ stream) (suc spare) 4 i f (omega (arith, total))
        (omega arith) in
    let front : take 4 ((head ++ body) ++ stream) ≡ head =
      ap (take 4) joint ∙ take-append_of 4 head (body ++ stream) (sym len) in
    let back : drop 4 ((head ++ body) ++ stream) ≡ body ++ stream =
      ap (drop 4) joint ∙ drop-append_of 4 head (body ++ stream) (sym len) in
    let feeds = subst (λ b. Feeds b (suc spare) first.inbox) back first.feeds in
    let second =
      recv_loop-Takes (body ++ stream) spare (length body) first.inbox feeds
        (omega (arith, length-append body stream)) (omega arith) in
    (
      second.inbox,
      recv_ips-by i first.inbox second.inbox body
          (first.done ∙ ap (λ (t : List ℕ). some (t, first.inbox)) front)
          (second.done ∙ ap (λ (t : List ℕ). some (t, second.inbox)) (take-append body stream))
          fits,
      subst (λ b. Feeds b spare second.inbox) (drop-append body stream) second.feeds,
    )
