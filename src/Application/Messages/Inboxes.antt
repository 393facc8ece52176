-- ===== src/Application/Messages/Inboxes.antt =====
-- The bytes that are ready at an inbox and those that become ready.
use network_layer_full.Base.{
  ℕ, ◌-◌, ◌≡◌, refl, ap, ◌∙◌, List, [], ◌∷◌, ◌++◌, append_assoc, arith, eq→==, ne→not_==, le→leb,
  All, length-take, take, drop, replicate, All-append, lt→not_leb, length-drop,
}
use native.Mathlib.Decide.{ℕ_discrete, dec_le}
use network_layer_full.Transport.Segs.{Entry, recv_seg}
use network_layer_full.Transport.Segs.Stream.{content, content-append}
use network_layer_full.Transport.Segs.Reading.{IsWhole, recv_seg_lem}
use network_layer_full.Application.Messages.{Inbox}

-- The bytes that become ready, in order.
unfoldable pub incoming : List (List Entry) → List ℕ
incoming [] = []
incoming (new ∷ later) = content new ++ incoming later

abbrev pub AllWhole : List (List Entry) → Type 0
AllWhole later = All (λ (es : List Entry). All IsWhole es) later

-- The bytes at an inbox and those to come are `stream`, and at least `spare` calls come after the
-- last of them.
pub record Feeds (stream : List ℕ) (spare : ℕ) (i : Inbox) : Type 0 where
  pub until : List (List Entry)
  pub split : i.later ≡ until ++ replicate spare []
  pub whole : All IsWhole i.segs
  pub whole_later : AllWhole until
  pub bytes : stream ≡ content i.segs ++ incoming until

pub incoming-append : (xs ys : List (List Entry)) → incoming (xs ++ ys) ≡ incoming xs ++ incoming ys
unfolding incoming
incoming-append [] ys = refl
incoming-append (x ∷ xs) ys =
    rw (incoming-append xs ys, append_assoc (content x) (incoming xs) (incoming ys))

recv_seg-IsWhole : (es : List Entry) (size : ℕ) → All IsWhole es → All IsWhole (recv_seg es size).1
unfolding recv_seg
recv_seg-IsWhole [] size h = tt
recv_seg-IsWhole (e ∷ es) size h = elim (ℕ_discrete size 0) [
  | yes stop ↦ rw (eq→== size 0 stop) h
  | no go ↦ elim (dec_le e.size size) [
    | yes all ↦
        rw (ne→not_== size 0 go, le→leb e.size size all) (recv_seg-IsWhole es (size - e.size) h.1)
    | no part ↦
        rw (ne→not_== size 0 go, lt→not_leb e.size size (omega arith))
          (
            omega (
              arith,
              h.0,
              length-take (e.size - size) (drop size e.segm.payload),
              length-drop size e.segm.payload,
            ),
            h.1,
          )
  ]
]

-- What a call gives, and what it leaves.
pub recv_seg-both :
    (segs new : List Entry) (n : ℕ)
    → All IsWhole segs
    → All IsWhole new
    → ((recv_seg (segs ++ new) n).0 ≡ take n (content segs ++ content new))
      × (content (recv_seg (segs ++ new) n).1 ≡ drop n (content segs ++ content new))
      × All IsWhole (recv_seg (segs ++ new) n).1
recv_seg-both segs new n hs hn =
    let all = All-append IsWhole segs new hs hn in
    let out = recv_seg_lem (segs ++ new) n all in
    let joint = content-append segs new in
    (out.0 ∙ ap (take n) joint, out.1 ∙ ap (drop n) joint, recv_seg-IsWhole (segs ++ new) n all)
