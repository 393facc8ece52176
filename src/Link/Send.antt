-- ===== src/Link/Send.antt =====
-- `link_send`, the one-place buffer that the mutexes guard, and the sender thread:
-- link_layer/link.c.
use network_layer_full.Base.{Bool, false}
use network_layer_full.Base.{
  ℕ, ◌-◌, Option, none, some, List, if◌then◌else◌, leb, ◌==◌, take, size_mod,
}
use network_layer_full.Base.Int.{ℤ, pos, negsuc}
use network_layer_full.Topology.{Host, Links, getmtu, findhost}
use network_layer_full.Garbler.{Garbler, sendto_garbled}
use network_layer_full.Link.Codec.{Frame, buildsendframe}

-- `slot` is the frame that waits for the sender thread: `link_send` fills it when it holds
-- `intersend_mutex`, and the thread empties it before it gives that mutex back.
pub record LinkState : Type 0 where
  pub me : Host
  pub hosts : List Host
  pub links : Links
  pub garbler : Garbler
  pub slot : Option (Frame × Host)

pub data Outcome : Type 0 where
  ok : LinkState → Outcome
  -- ERROR with ENETUNREACH, and with EMSGSIZE
  unreachable too_big : Outcome
  -- the caller waits for the mutex
  blocked : Outcome
  fault : Outcome

-- An `int` in a comparison with a `size_t`.
abbrev pub to_size : ℤ → ℕ
to_size (pos n) = n
to_size (negsuc n) = size_mod - 1 - n

abbrev pub is_minus_one : ℤ → Bool
is_minus_one (pos n) = false
is_minus_one (negsuc n) = n == 0

-- From the lock on: the frame and the address that it goes to.
unfoldable pub fill_slot :
    LinkState → ℕ → List ℕ → ℕ → Option (Frame × Host) → Option Host → Outcome
fill_slot s dest bytes size (some busy) host = blocked
fill_slot s dest bytes size none none = fault
fill_slot s dest bytes size none (some host) = ok (record s {
  slot = some (record { dest = dest; size = size; payload = take size bytes; checksum = 0 }, host);
})

unfoldable pub send_over : LinkState → ℕ → List ℕ → ℕ → Option ℤ → Outcome
unfolding fill_slot
send_over s dest bytes size none = fault
send_over s dest bytes size (some mtu) =
    if is_minus_one mtu
    then unreachable
    else (if leb (to_size mtu) size
        then too_big
        else fill_slot s dest bytes size s.slot (findhost s.hosts dest))

unfoldable pub link_send : LinkState → ℕ → List ℕ → ℕ → Outcome
unfolding send_over
link_send s dest bytes size = send_over s dest bytes size (getmtu s.links s.me.num dest)

-- One turn of `internalsend`: what goes to `sendto`, and to whom; `none` while the slot is empty.
unfoldable pub internalsend :
    (ℕ → List ℕ → ℤ) → ℕ → ℕ → LinkState → Option (List (List ℕ) × Host × LinkState)
internalsend sendto random1 random2 s = elim s.slot [
  | none ↦ none
  | some (f, host) ↦ some (
    (sendto_garbled sendto s.garbler random1 random2 (buildsendframe f).1).0,
    host,
    record s { slot = none },
  )
]
