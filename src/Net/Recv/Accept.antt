-- ===== src/Net/Recv/Accept.antt =====
-- A datagram for this host: the branch of `internalrecv` in net_layer/net_layer.c that stores it
-- and takes the packet out once it is complete.
use network_layer_full.Base.{ℕ, true, false, Option, none, some, List, [], ◌∷◌, ◌++◌, ◌>>=◌}
use network_layer_full.Net.Datagram.{Datagram}
use network_layer_full.Net.Packs.{
  Pack, Inserted, inserted, crash, hangs, insertoffset, Got, got, absent, undefined, getpack,
}

-- A packet that is complete: what `recv` holds when `protocol` is looked at.
pub record Delivery : Type 0 where
  pub protocol : ℕ
  pub src : ℕ
  pub size : ℕ
  pub payload : List ℕ

-- `none` is an access to memory that the program does not own or has not written, or a loop without
-- an end.
unfoldable pub take_out : Datagram → Got → Option (List Delivery × List Pack)
take_out d (got bytes size packs) =
    some (record { protocol = d.protocol; src = d.src; size = size; payload = bytes } ∷ [], packs)
take_out d absent = none
take_out d undefined = none

unfoldable pub after_insert : Datagram → Inserted → Option (List Delivery × List Pack)
unfolding take_out getpack
after_insert d crash = none
after_insert d hangs = none
after_insert d (inserted false packs) = some ([], packs)
after_insert d (inserted true packs) = take_out d (getpack packs d.id d.src)

unfoldable pub accept : List Pack → Datagram → Option (List Delivery × List Pack)
unfolding after_insert insertoffset
accept packs d = after_insert d (insertoffset packs d)

-- One datagram after the other.
unfoldable pub accept_all : List Pack → List Datagram → Option (List Delivery × List Pack)
unfolding accept
accept_all packs [] = some ([], packs)
accept_all packs (d ∷ ds) = do
  (now, packs') ← accept packs d
  (later, packs'') ← accept_all packs' ds
  some (now ++ later, packs'')
