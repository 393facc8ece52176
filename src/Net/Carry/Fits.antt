-- ===== src/Net/Carry/Fits.antt =====
-- Datagrams that the link layer takes, from the calls of `link_send` to the frames that arrive.
use network_layer_full.Base.{
  ℕ, ◌+◌, ◌^◌, ◌≤◌, ◌<◌, ◌≡◌, refl, sym, ap, false, Option, none, some, List, [], ◌∷◌, arith,
  length, length-append, length-le_bytes, length-take, take, take-all, leb, lt→not_leb, All,
  All-append, All-take, IsByte, AllBytes, le_bytes-AllBytes,
}
use network_layer_full.Base.Int.{ℤ, pos}
use network_layer_full.Checksum.{checksum}
use network_layer_full.Garbler.{initial, sendto_garbled}
use network_layer_full.Topology.{Host, getmtu, findhost}
use network_layer_full.Link.Codec.{Frame, buildsendframe}
use network_layer_full.Link.Frames.{IsFrame}
use network_layer_full.Link.Laws.{packet_frame}
use network_layer_full.Link.Send.{LinkState, ok, fill_slot, send_over, link_send, internalsend}
use network_layer_full.Link.Transfer.{receive-buildsendframe}
use network_layer_full.Net.Carry.{carry, after_call, after_turn, arrive, after_arrival}
use network_layer_full.Net.Datagram.{Datagram, datagram_head, buildsenddatagram}
use network_layer_full.Net.Datagram.RoundTrip.{IsDatagram}
use network_layer_full.Net.Recv.Own.{frames}
use network_layer_full.Net.Sending.{to_link}

sendto_garbled-initial :
    (sendto : ℕ → List ℕ → ℤ) (random1 random2 : ℕ) (msg : List ℕ)
    → (sendto_garbled sendto initial random1 random2 msg).0 ≡ msg ∷ []
unfolding sendto_garbled
sendto_garbled-initial sendto random1 random2 msg = ground arith

length-buildsenddatagram :
    (d : Datagram) → IsDatagram d → length (buildsenddatagram d).1 ≡ d.size + 20
unfolding buildsenddatagram datagram_head
length-buildsenddatagram d v =
    let sum = checksum (datagram_head d) in
    simp (length-append, length-le_bytes) (omega (arith, length-take d.size d.payload, v.sized))

buildsenddatagram-AllBytes : (d : Datagram) → AllBytes d.payload → AllBytes (buildsenddatagram d).1
unfolding buildsenddatagram datagram_head
buildsenddatagram-AllBytes d h =
    let two = le_bytes-AllBytes 2 in
    let all = λ (xs ys : List ℕ). All-append IsByte xs ys in
    all _ _
      (all _ _ (le_bytes-AllBytes 8 d.size) (
        all _ _ (two d.id) (
          all _ _ (two d.frag) (
            all _ _ (le_bytes-AllBytes 1 d.protocol) (
              all _ _ (le_bytes-AllBytes 1 d.ttl) (
                all _ _ (two d.dest)
                  (all _ _ (two d.src) (All-take IsByte d.size d.payload h))))))))
      (two (checksum (datagram_head d)))

-- A datagram that the link layer takes over a link of this MTU.
abbrev pub Fits : ℕ → Datagram → Type 0
Fits mtu d = IsDatagram d × AllBytes d.payload × (d.size + 20 < mtu)

abbrev frame_for : ℕ → Datagram → Frame
frame_for link d = packet_frame link (d.size + 20) (buildsenddatagram d).1

abbrev message_of : ℕ → Datagram → List ℕ
message_of link d = (buildsendframe (frame_for link d)).1

-- The messages of datagrams for `link`.
abbrev pub messages : ℕ → List Datagram → List (List ℕ)
messages link [] = []
messages link (d ∷ ds) = message_of link d ∷ messages link ds

module _ (sendto : ℕ → List ℕ → ℤ) (random1 random2 : ℕ → ℕ) (max mtu link : ℕ) (host : Host)
    (s : LinkState) (free : s.slot ≡ none) (off : s.garbler ≡ initial)
    (up : getmtu s.links s.me.num link ≡ some (pos mtu)) (known : findhost s.hosts link ≡ some host)
    (link_in : link < 2 ^ 16) (high : mtu < 2 ^ 16) (room : mtu + 11 ≤ max) where
  link_send-Fits :
      (d : Datagram)
      → Fits mtu d
      → link_send s link (buildsenddatagram d).1 (d.size + 20)
        ≡ ok (record s { slot = some (frame_for link d, host) })
  unfolding link_send send_over fill_slot
  link_send-Fits d v =
      let len = length-buildsenddatagram d v.0 in
      let below : leb mtu (d.size + 20) ≡ false = lt→not_leb mtu (d.size + 20) v.2 in
      let whole : take (d.size + 20) (buildsenddatagram d).1 ≡ (buildsenddatagram d).1 =
        take-all (d.size + 20) (buildsenddatagram d).1 (omega arith) in
      rw (up, below, free, known, whole)

  internalsend-Fits :
      (d : Datagram) (r1 r2 : ℕ)
      → internalsend sendto r1 r2 (record s { slot = some (frame_for link d, host) })
        ≡ some (message_of link d ∷ [], host, s)
  unfolding internalsend
  internalsend-Fits d r1 r2 =
      let once : (sendto_garbled sendto s.garbler r1 r2 (message_of link d)).0
          ≡ message_of link d ∷ [] =
        rw off (sendto_garbled-initial sendto r1 r2 (message_of link d)) in
      rw once (
        ap
          (λ (t : Option (Frame × Host)).
            some (message_of link d ∷ [], host, record s { slot = t }))
          (sym free))

  pub carry-Fits :
      (i : ℕ) (ds : List Datagram)
      → All (Fits mtu) ds
      → carry sendto random1 random2 i (to_link link ds) s ≡ some (messages link ds, s)
  unfolding carry to_link after_call after_turn
  carry-Fits i [] h = refl
  carry-Fits i (d ∷ ds) h =
      let call = link_send-Fits d h.0 in
      let turn = internalsend-Fits d (random1 i) (random2 i) in
      rw (call, turn, carry-Fits (i + 1) ds h.1)

  pub arrive-Fits :
      (ds : List Datagram)
      → All (Fits mtu) ds
      → arrive max (messages link ds) ≡ some (frames (to_link link ds))
  unfolding arrive to_link after_arrival
  arrive-Fits [] h = refl
  arrive-Fits (d ∷ ds) h =
      let len = length-buildsenddatagram d h.0.0 in
      let v : IsFrame (frame_for link d) = record {
        dest_in = link_in;
        sized = len;
        small = omega (arith, h.0.2);
        bytes = buildsenddatagram-AllBytes d h.0.1;
      } in
      let here = receive-buildsendframe max (frame_for link d) v (omega (arith, h.0.2)) in
      let payload : (buildsendframe (frame_for link d)).0.payload ≡ (buildsenddatagram d).1 =
        unfold buildsendframe in refl in
      rw (here, arrive-Fits ds h.1, payload)
