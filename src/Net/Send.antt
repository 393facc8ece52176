-- ===== src/Net/Send.antt =====
-- The sending thread of net_layer/net_layer.c.
use network_layer_full.Base.{ℕ, List, [], ◌∷◌}
use network_layer_full.Net.Datagram.{Datagram}
use network_layer_full.Net.Frag.{Fragment}

-- `wait_list_item_t`; the field `data` is `payload`.
pub record WaitListItem : Type 0 where
  pub dest : ℕ
  pub src : ℕ
  pub payload : List ℕ
  pub offset : ℕ
  pub ttl : ℕ
  pub size : ℕ
  pub protocol : ℕ
  pub id : ℕ
  pub first_dest_link : ℕ

-- The datagram of a fragment: `data_send` before `buildsenddatagram`.
unfoldable pub from_fragment : WaitListItem → ℕ → Fragment → Datagram
from_fragment item id g = record {
  size = g.size;
  id = id;
  frag = g.frag;
  protocol = item.protocol;
  ttl = item.ttl;
  dest = item.dest;
  src = item.src;
  payload = g.payload;
  checksum = 0;
}

unfoldable pub from_fragments : WaitListItem → ℕ → List Fragment → List Datagram
unfolding from_fragment
from_fragments item id [] = []
from_fragments item id (g ∷ gs) = from_fragment item id g ∷ from_fragments item id gs
