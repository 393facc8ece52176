-- ===== src/Net/Carry.antt =====
-- The network layer over the link layer: the calls of `link_send` in `internalsend` of
-- net_layer/net_layer.c with the turns of the threads of link_layer/link.c.
pub mod Fits
pub mod OneLink
pub mod TwoHops
use network_layer_full.Base.{ℕ, suc, ◌+◌, Option, none, some, List, [], ◌∷◌, ◌++◌}
use network_layer_full.Base.Int.{ℤ}
use network_layer_full.Topology.{Host}
use network_layer_full.Link.Codec.{Frame, Arrival, accepted, discarded, fault, receive}
use network_layer_full.Link.Send.{
  LinkState, Outcome, ok, unreachable, too_big, blocked, fault, link_send, internalsend,
}
use network_layer_full.Net.Sending.{LinkCall}

-- The messages on the wire in order, and the state; `none` is a fault, or a caller that waits.
abbrev pub Carried : Type 0
Carried = Option (List (List ℕ) × LinkState)

abbrev pub and_messages : List (List ℕ) → Carried → Carried
and_messages now none = none
and_messages now (some (later, s)) = some (now ++ later, s)

unfoldable pub after_turn :
    (LinkState → Carried) → Option (List (List ℕ) × Host × LinkState) → Carried
after_turn more none = none
after_turn more (some (messages, host, s)) = and_messages messages (more s)

-- An ERROR is not looked at.
unfoldable pub after_call :
    (ℕ → List ℕ → ℤ) → ℕ → ℕ → (LinkState → Carried) → LinkState → Outcome → Carried
unfolding after_turn
after_call sendto random1 random2 more s (ok s') =
    after_turn more (internalsend sendto random1 random2 s')
after_call sendto random1 random2 more s unreachable = more s
after_call sendto random1 random2 more s too_big = more s
after_call sendto random1 random2 more s blocked = none
after_call sendto random1 random2 more s fault = none

-- The calls in order; the thread that sends takes its turn after each that succeeds. The random
-- numbers are asked for with the number of the call.
unfoldable pub carry :
    (ℕ → List ℕ → ℤ) → (ℕ → ℕ) → (ℕ → ℕ) → ℕ → List LinkCall → LinkState → Carried
unfolding after_call
carry sendto random1 random2 i [] s = some ([], s)
carry sendto random1 random2 i (c ∷ cs) s =
    after_call sendto (random1 i) (random2 i) (carry sendto random1 random2 (i + 1) cs) s
      (link_send s c.dest c.bytes c.size)

abbrev pub and_frame : List ℕ → Option (List (List ℕ)) → Option (List (List ℕ))
and_frame payload none = none
and_frame payload (some payloads) = some (payload ∷ payloads)

unfoldable pub after_arrival : Arrival → Option (List (List ℕ)) → Option (List (List ℕ))
after_arrival (accepted f) more = and_frame f.payload more
after_arrival discarded more = more
after_arrival fault more = none

-- What the network layer gets of the messages that arrive.
unfoldable pub arrive : ℕ → List (List ℕ) → Option (List (List ℕ))
unfolding after_arrival
arrive max [] = some []
arrive max (msg ∷ msgs) = after_arrival (receive max msg) (arrive max msgs)
