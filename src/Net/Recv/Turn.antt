-- ===== src/Net/Recv/Turn.antt =====
-- The receiving thread of net_layer/net_layer.c: the test of the checksum, packets for this host,
-- and packets for others.
use network_layer_full.Base.{
  ℕ, ◌+◌, ◌-◌, ◌^◌, ◌||◌, Option, none, some, List, [], ◌∷◌, ◌++◌, if◌then◌else◌, ◌==◌, ◌>>=◌, take,
  length, u8, u16,
}
use network_layer_full.Checksum.{checksum}
use network_layer_full.Net.Datagram.{Datagram, buildrecvdatagram}
use network_layer_full.Net.Packs.{Pack}
use network_layer_full.Net.Routes.{read_route, handle_route}
use network_layer_full.Net.Recv.Accept.{Delivery, accept}
use network_layer_full.Net.Sending.{NetState, Queued, queued, no_route, waits, net_resend}

-- What a turn ends with: what the transport layer gets, the pending packets and the state; or it
-- waits at the ring; or it accesses memory that it does not own.
pub data Turn : Type 0 where
  turned : List Delivery → List Pack → NetState → Turn
  held crash : Turn

-- A complete packet, by its protocol; the thread that handles a route is taken to run at once.
unfoldable pub hand_on : NetState → Delivery → Option (List Delivery × NetState)
hand_on s d =
    if d.protocol == 0
    then (do
      r ← read_route d.payload
      routing ← handle_route s.routing r
      some ([], record s { routing = routing }))
    else (if d.protocol == 1 || d.protocol == 2 then some (d ∷ [], s) else some ([], s))

unfoldable pub hand_on_all : NetState → List Pack → List Delivery → Turn
unfolding hand_on
hand_on_all s packs [] = turned [] packs s
hand_on_all s packs (d ∷ ds) = elim (hand_on s d) [
  | none ↦ crash
  | some (up, s') ↦ turned up packs s'
]

unfoldable pub for_me : NetState → Option (List Delivery × List Pack) → Turn
unfolding hand_on_all
for_me s none = crash
for_me s (some (ds, packs)) = hand_on_all s packs ds

abbrev pub after_resend : List Pack → Queued → Turn
after_resend packs (queued s) = turned [] packs s
after_resend packs no_route = held
after_resend packs waits = held

-- `recv->protocol = 2; recv->ttl--`
abbrev pub passed_on : Datagram → Datagram
passed_on d = record d { protocol = 2; ttl = u8 (d.ttl + 255) }

unfoldable pub dispatch : NetState → List Pack → List ℕ → Datagram → Turn
unfolding for_me
dispatch s packs buf d =
    if u16 (checksum (take (length buf - 2) buf) + 2 ^ 16 - d.checksum) == 0
    then (if d.dest == s.routing.num
        then for_me s (accept packs d)
        else after_resend packs (net_resend s (passed_on d)))
    else turned [] packs s

unfoldable pub at_datagram : NetState → List Pack → List ℕ → Option Datagram → Turn
unfolding dispatch
at_datagram s packs buf none = crash
at_datagram s packs buf (some d) = dispatch s packs buf d

-- One turn of `internalrecv`, for the `size` bytes of a frame.
unfoldable pub internalrecv : NetState → List Pack → List ℕ → Turn
unfolding at_datagram
internalrecv s packs buf = at_datagram s packs buf (buildrecvdatagram buf)

abbrev pub then_more : List Delivery → Turn → Turn
then_more now (turned later packs s) = turned (now ++ later) packs s
then_more now held = held
then_more now crash = crash

abbrev pub and_then : Turn → (NetState → List Pack → Turn) → Turn
and_then (turned now packs s) rest = then_more now (rest s packs)
and_then held rest = held
and_then crash rest = crash

-- The turns for one frame after the other.
unfoldable pub receive_all : List (List ℕ) → NetState → List Pack → Turn
unfolding internalrecv
receive_all [] s packs = turned [] packs s
receive_all (buf ∷ bufs) s packs = and_then (internalrecv s packs buf) (receive_all bufs)
