-- ===== src/Net/Recv/Own.antt =====
-- Packets from the sender's queue to the layer above the receiver's, over one link.
use network_layer_full.Base.{
  ℕ, ◌+◌, ◌-◌, ◌^◌, ◌≡◌, inl, inr, refl, ap, subst, ◌∙◌, true, false, Option, Option-cases, none,
  some, List, [], ◌∷◌, ◌++◌, arith, ◌==◌, eq→==, if◌then◌else◌, length, length-append,
  length-le_bytes, take, take-append_of, le_bytes, All, u16,
}
use network_layer_full.Checksum.{checksum}
use network_layer_full.Checksum.Laws.{checksum-lt}
use network_layer_full.Net.Datagram.{Datagram, datagram_head, buildsenddatagram}
use network_layer_full.Net.Datagram.RoundTrip.{IsDatagram, buildrecvdatagram-buildsenddatagram}
use network_layer_full.Net.Packs.{
  Pack, Inserted, inserted, crash, hangs, insertoffset, Got, got, absent, undefined, getpack,
}
use network_layer_full.Net.Packs.InOrder.{stamped}
use network_layer_full.Net.Recv.Accept.{Delivery, take_out, after_insert, accept, accept_all}
use network_layer_full.Net.Recv.Turn.{
  turned, hand_on, for_me, passed_on, after_resend, dispatch, at_datagram, internalrecv,
  receive_all,
}
use network_layer_full.Net.Sending.{NetState, LinkCall, to_link, net_resend}

abbrev pub sum_of : Datagram → ℕ
sum_of d = checksum (datagram_head d)

-- The checksum of a datagram as it was sent is found right.
pub dispatch-sent :
    (s : NetState) (packs : List Pack) (d : Datagram)
    → dispatch s packs (buildsenddatagram d).1 (buildsenddatagram d).0 ≡ (
        if d.dest == s.routing.num
        then for_me s (accept packs (buildsenddatagram d).0)
        else after_resend packs (net_resend s (passed_on (buildsenddatagram d).0)))
unfolding dispatch buildsenddatagram
dispatch-sent s packs d =
    let head = datagram_head d in
    let sum = checksum head in
    let small = checksum-lt head in
    let two = length-le_bytes 2 sum in
    let len : length (head ++ le_bytes 2 sum) - 2 ≡ length head =
      omega (arith, length-append head (le_bytes 2 sum)) in
    let front : take (length (head ++ le_bytes 2 sum) - 2) (head ++ le_bytes 2 sum) ≡ head =
      take-append_of _ head (le_bytes 2 sum) len in
    let right : (u16 (sum + 2 ^ 16 - sum) == 0) ≡ true = ground arith in rw (front, right)

pub internalrecv-sent :
    (s : NetState) (packs : List Pack) (d : Datagram)
    → IsDatagram d
    → internalrecv s packs (buildsenddatagram d).1 ≡ (
        if d.dest == s.routing.num
        then for_me s (accept packs (buildsenddatagram d).0)
        else after_resend packs (net_resend s (passed_on (buildsenddatagram d).0)))
unfolding internalrecv at_datagram
internalrecv-sent s packs d v =
    rw (buildrecvdatagram-buildsenddatagram d v) (dispatch-sent s packs d)

-- A complete packet of the transport layer goes up.
abbrev Upward : ℕ → Option (List Delivery × List Pack) → Type 0
Upward protocol none = Unit
Upward protocol (some ([], packs)) = Unit
Upward protocol (some (x ∷ [], packs)) = x.protocol ≡ protocol
Upward protocol (some (x ∷ y ∷ xs, packs)) = ⊥

take_out-Upward : (d : Datagram) (g : Got) → Upward d.protocol (take_out d g)
unfolding take_out
take_out-Upward d (got bytes size packs) = refl
take_out-Upward d absent = tt
take_out-Upward d undefined = tt

after_insert-Upward : (d : Datagram) (i : Inserted) → Upward d.protocol (after_insert d i)
unfolding after_insert
after_insert-Upward d crash = tt
after_insert-Upward d hangs = tt
after_insert-Upward d (inserted true packs) = take_out-Upward d (getpack packs d.id d.src)
after_insert-Upward d (inserted false packs) = tt

accept-Upward : (packs : List Pack) (d : Datagram) → Upward d.protocol (accept packs d)
unfolding accept
accept-Upward packs d = after_insert-Upward d (insertoffset packs d)

for_me-Upward :
    (s : NetState) (now : List Delivery) (packs : List Pack)
    → Upward 1 (some (now, packs))
    → for_me s (some (now, packs)) ≡ turned now packs s
unfolding for_me hand_on
for_me-Upward s [] packs u = refl
for_me-Upward s (x ∷ []) packs u = rw u
for_me-Upward s (x ∷ y ∷ xs) packs u = absurd u

-- Datagrams of protocol 1 for this host.
abbrev pub AllMine : ℕ → List Datagram → Type 0
AllMine num ds = All (λ d. IsDatagram d × (d.protocol ≡ 1) × (d.dest ≡ num)) ds

abbrev pub frames : List LinkCall → List (List ℕ)
frames [] = []
frames (c ∷ cs) = c.bytes ∷ frames cs

-- The two parts of a run over several datagrams.
record Splits (packs : List Pack) (d : Datagram) (ds : List Datagram) (ups : List Delivery)
    (packs' : List Pack) : Type 0 where
  now : List Delivery
  later : List Delivery
  between : List Pack
  first : accept packs d ≡ some (now, between)
  rest : accept_all between ds ≡ some (later, packs')
  both : ups ≡ now ++ later

accept_all-Splits :
    (packs packs' : List Pack) (d : Datagram) (ds : List Datagram) (ups : List Delivery)
    → accept_all packs (d ∷ ds) ≡ some (ups, packs')
    → Splits packs d ds ups packs'
unfolding accept_all
accept_all-Splits packs packs' d ds ups e = elim (Option-cases (accept packs d)) [
  | inl n ↦
      let e' : ◌≡◌ {A = Option (List Delivery × List Pack)} none (some (ups, packs')) = rw n at e in
      cc
  | inr ((now, between), f) ↦ elim (Option-cases (accept_all between ds)) [
    | inl n ↦
        let e' : ◌≡◌ {A = Option (List Delivery × List Pack)} none (some (ups, packs')) =
          rw (f, n) at e in
        cc
    | inr ((later, last), r) ↦
        let e' : ◌≡◌ {A = Option (List Delivery × List Pack)} (some (now ++ later, last))
            (some (ups, packs')) =
          rw (f, r) at e in
        record {
          now = now;
          later = later;
          between = between;
          first = f;
          rest = let same : last ≡ packs' = cc in r ∙ ap (λ (t : List Pack). some (later, t)) same;
          both = cc;
        }
  ]
]

-- What `accept_all` makes of the datagrams, the thread makes of their bytes.
pub receive_all-to_link :
    (s : NetState) (packs packs' : List Pack) (link : ℕ) (ds : List Datagram) (ups : List Delivery)
    → AllMine s.routing.num ds
    → accept_all packs (stamped sum_of ds) ≡ some (ups, packs')
    → receive_all (frames (to_link link ds)) s packs ≡ turned ups packs' s
unfolding receive_all to_link
receive_all-to_link s packs packs' link [] ups h e = unfold accept_all in cc
receive_all-to_link s packs packs' link (d ∷ ds) ups h e =
    let parts = accept_all-Splits packs packs' (buildsenddatagram d).0 (stamped sum_of ds) ups e in
    let mine : (d.dest == s.routing.num) ≡ true = eq→== d.dest s.routing.num h.0.2 in
    let up : Upward 1 (some (parts.now, parts.between)) = subst (Upward 1) parts.first (
      subst (λ n. Upward n (accept packs (buildsenddatagram d).0)) h.0.1
        (accept-Upward packs (buildsenddatagram d).0)) in
    let turn = internalrecv-sent s packs d h.0.0 in
    let ih = receive_all-to_link s parts.between packs' link ds parts.later h.1 parts.rest in
    rw (turn, mine, parts.first, for_me-Upward s parts.now parts.between up, ih, parts.both)
