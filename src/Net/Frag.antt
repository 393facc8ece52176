-- ===== src/Net/Frag.antt =====
-- net_layer/frag/frag.c: cutting a packet into fragments.
pub mod Laws
use network_layer_full.Base.{
  ℕ, zero, suc, ◌+◌, ◌-◌, ◌/◌, ◌%◌, ◌^◌, Bool, false, Option, none, some, List, [], ◌∷◌,
  if◌then◌else◌, leb, ◌==◌, ◌>>=◌, take, drop, u16, sub_size,
}
use network_layer_full.Checksum.{checksum}
use network_layer_full.Net.Datagram.{net_header_size, offset_of, more_bit, with_more}

-- What `addheader` fills in of a `datagram_t`.
pub record Fragment : Type 0 where
  pub size : ℕ
  pub frag : ℕ
  pub payload : List ℕ
  pub checksum : ℕ

unfoldable pub addheader : List ℕ → ℕ → ℕ → Fragment
addheader bytes size flag_offset = record {
  size = size;
  frag = u16 flag_offset;
  payload = take size bytes;
  checksum = checksum (take size bytes);
}

-- `mtu - NET_HEADER_SIZE` as a `size_t`, rounded down to a multiple of 8.
unfoldable pub frag_size : ℕ → ℕ
frag_size mtu = let room = sub_size mtu net_header_size in room - room % 8

-- The loop of both functions, with the bytes from `off` on; `mark` says whether the last fragment
-- has the flag set too. `none` means that the fuel ran out.
unfoldable pub frag_loop : ℕ → Bool → ℕ → ℕ → List ℕ → ℕ → ℕ → Option (List Fragment)
unfolding addheader
frag_loop zero mark fs pack_off bytes size off = none
frag_loop (suc fuel) mark fs pack_off bytes size off =
    let rest = (do
      frags ← frag_loop fuel mark fs pack_off bytes size (off + fs)
      some (addheader (take fs (drop off bytes)) fs (with_more (off + pack_off)) ∷ frags)) in
    if leb (sub_size size off) fs
    then some (
        addheader (take (size - off) (drop off bytes)) (size - off)
          (if mark then with_more (off + pack_off) else off + pack_off)
        ∷ [])
    else rest

-- The return value and the list. A packet that fits is one fragment with the offset as given.
unfoldable pub fragpack : ℕ → List ℕ → ℕ → ℕ → ℕ → Option (ℕ × List Fragment)
unfolding frag_loop frag_size
fragpack fuel bytes size mtu offset =
    if leb (size + net_header_size) mtu then some (0, addheader bytes size offset ∷ []) else (do
      frags ← frag_loop fuel false (frag_size mtu) (offset_of offset) bytes size 0
      some (1, frags))

-- The variant for forwarding: the last fragment keeps the flag of the packet.
unfoldable pub fragpack2 : ℕ → List ℕ → ℕ → ℕ → ℕ → Option (ℕ × List Fragment)
unfolding frag_loop frag_size
fragpack2 fuel bytes size mtu offset =
    if leb (size + net_header_size) mtu then some (0, addheader bytes size offset ∷ []) else (do
      frags ← frag_loop fuel (more_bit offset == 1) (frag_size mtu) (offset_of offset) bytes size 0
      some (1, frags))
