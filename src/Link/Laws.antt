-- ===== src/Link/Laws.antt =====
-- Which packets `link_send` takes, and which of its frames can arrive.
use network_layer_full.Base.{
  ℕ, ◌+◌, ◌^◌, ◌≤◌, ◌<◌, ◌≡◌, ◌≢◌, ◌⊎◌, inl, inr, refl, sym, ap, Option, none, some, List, arith,
  length, take, take-all, leb, Bool-cases, All, AllBytes,
}
use network_layer_full.Base.Int.{ℤ}
use network_layer_full.Topology.{Host, getmtu, findhost}
use network_layer_full.Link.Codec.{Frame, buildsendframe, accepted, discarded, receive}
use network_layer_full.Link.Frames.{IsFrame}
use network_layer_full.Link.Transfer.{receive-sendto_garbled}
use network_layer_full.Link.Send.{
  LinkState, ok, unreachable, too_big, link_send, to_size, is_minus_one, fill_slot, send_over,
  internalsend,
}
use network_layer_full.Garbler.{sendto_garbled}

ok_injective : {s t : LinkState} → ok s ≡ ok t → s ≡ t
ok_injective e = cc

unreachable≢ok : {s : LinkState} → unreachable ≢ ok s
unreachable≢ok e = cc

too_big≢ok : {s : LinkState} → too_big ≢ ok s
too_big≢ok e = cc

-- The frame of a packet.
abbrev pub packet_frame : ℕ → ℕ → List ℕ → Frame
packet_frame dest size bytes = record { dest = dest; size = size; payload = bytes; checksum = 0 }

-- What is known when `link_send` succeeds: the slot was free, the packet is smaller than the MTU
-- of the link, the address is known, and nothing but the slot has changed.
pub record Sent (s : LinkState) (dest size : ℕ) (bytes : List ℕ) (s' : LinkState) : Type 0 where
  pub host : Host
  pub mtu : ℤ
  pub free : s.slot ≡ none
  pub link : getmtu s.links s.me.num dest ≡ some mtu
  pub below : size < to_size mtu
  pub known : findhost s.hosts dest ≡ some host
  pub filled : s' ≡ record s { slot = some (packet_frame dest size (take size bytes), host) }

fill_slot-Sent :
    (s s' : LinkState) (dest size : ℕ) (bytes : List ℕ) (mtu : ℤ) (slot : Option (Frame × Host))
    (h : Option Host)
    → s.slot ≡ slot
    → getmtu s.links s.me.num dest ≡ some mtu
    → size < to_size mtu
    → findhost s.hosts dest ≡ h
    → fill_slot s dest bytes size slot h ≡ ok s'
    → Sent s dest size bytes s'
unfolding fill_slot
fill_slot-Sent s s' dest size bytes mtu (some busy) h es em lt eh e = cc
fill_slot-Sent s s' dest size bytes mtu none none es em lt eh e = cc
fill_slot-Sent s s' dest size bytes mtu none (some host) es em lt eh e = record {
  host = host;
  mtu = mtu;
  free = es;
  link = em;
  below = lt;
  known = eh;
  filled = sym (ok_injective e);
}

send_over-Sent :
    (s s' : LinkState) (dest size : ℕ) (bytes : List ℕ) (m : Option ℤ)
    → getmtu s.links s.me.num dest ≡ m
    → send_over s dest bytes size m ≡ ok s'
    → Sent s dest size bytes s'
unfolding send_over
send_over-Sent s s' dest size bytes none em e = cc
send_over-Sent s s' dest size bytes (some mtu) em e = elim (Bool-cases (is_minus_one mtu)) [
  | inl down ↦ absurd (unreachable≢ok (rw down at e))
  | inr up ↦ elim (Bool-cases (leb (to_size mtu) size)) [
    | inl big ↦ absurd (too_big≢ok (rw (up, big) at e))
    | inr small ↦
        fill_slot-Sent s s' dest size bytes mtu s.slot (findhost s.hosts dest) refl em
          (ground arith) refl (rw (up, small) at e)
  ]
]

pub link_send-Sent :
    (s s' : LinkState) (dest size : ℕ) (bytes : List ℕ)
    → link_send s dest bytes size ≡ ok s'
    → Sent s dest size bytes s'
unfolding link_send
link_send-Sent s s' dest size bytes e =
    send_over-Sent s s' dest size bytes (getmtu s.links s.me.num dest) refl e

-- A packet that `link_send` takes is handed on by the next turn of the sender thread: that turn
-- leaves the state as it was before `link_send`, goes to the address of `dest`, and every message
-- that it hands to `sendto` is either accepted by a receiver as a frame for `dest` with exactly
-- this packet, or discarded there. The packet's length is `size`, and frame and checksum fit the
-- receive buffer.
pub link_send-delivers :
    (s s' : LinkState) (dest size max random1 random2 : ℕ) (bytes : List ℕ)
    (sendto : ℕ → List ℕ → ℤ)
    → dest < 2 ^ 16
    → length bytes ≡ size
    → AllBytes bytes
    → size + 10 < 2 ^ 17
    → size + 12 ≤ max
    → link_send s dest bytes size ≡ ok s'
    → (msgs : List (List ℕ)) × (host : Host) × (internalsend sendto random1 random2 s'
        ≡ some (msgs, host, s))
      × (findhost s.hosts dest ≡ some host)
      × All
          (λ msg.
            (receive max msg ≡ accepted (buildsendframe (packet_frame dest size bytes)).0)
            ⊎ (receive max msg ≡ discarded))
          msgs
link_send-delivers s s' dest size max random1 random2 bytes sendto hd len hb small fits e =
    let out = link_send-Sent s s' dest size bytes e in
    let f = packet_frame dest size bytes in
    let whole : take size bytes ≡ bytes = take-all size bytes (omega arith) in
    let v : IsFrame f = record { dest_in = hd; sized = len; small = small; bytes = hb } in
    let arrive = receive-sendto_garbled sendto s.garbler random1 random2 max f v fits in
    (
      (sendto_garbled sendto s.garbler random1 random2 (buildsendframe f).1).0,
      out.host,
      rw (out.filled, whole)
          (unfold internalsend in
            ap
              (λ (t : Option (Frame × Host)). some (
                (sendto_garbled sendto s.garbler random1 random2 (buildsendframe f).1).0,
                out.host,
                record s { slot = t },
              ))
              (sym out.free)),
      out.known,
      arrive.0,
    )
