-- ===== src/Net/Packs/InOrder.antt =====
-- A packet whose fragments arrive in order is put together again.
use network_layer_full.Base.{
  ℕ, ◌+◌, ◌%◌, ◌^◌, ◌≤◌, ◌<◌, ◌≡◌, ◌≢◌, refl, ap, subst, true, false, none, some, List, [], ◌∷◌,
  ◌++◌, arith, ◌==◌, length, length-take, length-drop, take, take-all, drop, size_mod, ne→not_==,
}
use network_layer_full.Net.Datagram.{Datagram, more_bit, net_header_size}
use network_layer_full.Net.Frag.{Fragment, fragpack, frag_size}
use network_layer_full.Net.Frag.Laws.{IsCut, fragpack_lem, frag_size_bounds}
use network_layer_full.Net.Send.{WaitListItem, from_fragment, from_fragments}
use network_layer_full.Net.Packs.{Pack, has_key, getid, added, walk, last_total, joined, sizes}
use network_layer_full.Net.Recv.Accept.{accept, accept_all}
use network_layer_full.Net.Packs.Partly.{
  joined-snoc, walk_next, UpTo-next, joined_step, sizes-snoc, Partly,
}

-- A fragment in the middle.
accept_middle :
    (fs position : ℕ) (x : Datagram) (xs : List Datagram) (p : Pack) (packs : List Pack)
    (d : Datagram)
    → Partly fs position x xs p
    → 0 < fs
    → position + fs ≤ 2 ^ 15
    → p.id ≡ d.id
    → p.src ≡ d.src
    → d.frag ≡ position + 2 ^ 15
    → position < 2 ^ 15
    → d.size ≡ fs
    → accept (p ∷ packs) d
      ≡ some ([], record p { count_size = position + fs; offs = x ∷ (xs ++ (d ∷ [])) } ∷ packs)
unfolding accept
accept_middle fs position x xs p packs d part pos top ei es ef below size =
    let go : walk x xs d ≡ added (x ∷ (xs ++ (d ∷ []))) =
      walk_next fs position x xs d pos (omega arith) part.up (omega arith) (omega arith) in
    let on : (more_bit d.frag == 0) ≡ false = ground arith in
    let key : has_key d.id d.src p ≡ true = ground arith in
    let count : (p.count_size + d.size) % size_mod ≡ position + fs = omega (arith, part.counted) in
    let open_still : (0 == position + fs) ≡ false = ground arith in
    rw (key, part.nodes, part.straight, go, on, count, part.open_end, open_still, key)

-- The last fragment: the packet is complete and leaves the list.
accept_last :
    (fs position : ℕ) (x : Datagram) (xs : List Datagram) (p : Pack) (packs : List Pack)
    (d : Datagram)
    → Partly fs position x xs p
    → 0 < fs
    → position + d.size ≤ 2 ^ 15
    → p.id ≡ d.id
    → p.src ≡ d.src
    → d.frag ≡ position
    → position < 2 ^ 15
    → 0 < d.size
    → d.size ≤ fs
    → accept (p ∷ packs) d
      ≡ some (
        record {
          protocol = d.protocol;
          src = d.src;
          size = position + d.size;
          payload = joined (x ∷ xs) ++ take d.size d.payload;
        }
            ∷ [],
        packs,
      )
unfolding accept
accept_last fs position x xs p packs d part pos top ei es ef below some_bytes size =
    let go : walk x xs d ≡ added (x ∷ (xs ++ (d ∷ []))) =
      walk_next fs position x xs d pos (omega arith) part.up (omega arith) (omega arith) in
    let on : (more_bit d.frag == 0) ≡ true = ground arith in
    let key : has_key d.id d.src p ≡ true = ground arith in
    let count : (p.count_size + d.size) % size_mod ≡ position + d.size =
      omega (arith, part.counted) in
    let total : last_total d ≡ position + d.size = omega arith in
    let complete : (position + d.size == position + d.size) ≡ true = ground arith in
    let sum : sizes (x ∷ (xs ++ (d ∷ []))) ≡ position + d.size =
      omega (arith, sizes-snoc (x ∷ xs) d, part.summed) in
    let key' : has_key p.id p.src p ≡ true = ground arith in
    rw (
      key,
      part.nodes,
      part.straight,
      go,
      on,
      count,
      total,
      complete,
      key,
      key,
      sum,
      complete,
      key',
      joined-snoc (x ∷ xs) d,
    )

-- Datagrams with their checksums filled in, by whatever function of the datagram.
abbrev pub stamped : (Datagram → ℕ) → List Datagram → List Datagram
stamped sum [] = []
stamped sum (d ∷ ds) = record d { checksum = sum d } ∷ stamped sum ds

-- The rest of the fragments.
accept_rest :
    (checksum : Datagram → ℕ) (item : WaitListItem) (id fs position : ℕ) (x : Datagram)
    (xs : List Datagram) (p : Pack) (packs : List Pack) (rest : List ℕ) (frags : List Fragment)
    → Partly fs position x xs p
    → 0 < fs
    → position + length rest ≤ 2 ^ 15
    → p.id ≡ id
    → p.src ≡ item.src
    → IsCut fs false position rest frags
    → accept_all (p ∷ packs) (stamped checksum (from_fragments item id frags))
      ≡ some (
        record {
          protocol = item.protocol;
          src = item.src;
          size = position + length rest;
          payload = joined (x ∷ xs) ++ rest;
        }
            ∷ [],
        packs,
      )
unfolding accept_all from_fragments
accept_rest checksum item id fs position x xs p packs rest [] part pos top ei es cut = absurd cut
accept_rest checksum item id fs position x xs p packs rest (g ∷ []) part pos top ei es cut =
    let d = record (from_fragment item id g) { checksum = checksum (from_fragment item id g) } in
    let whole : take g.size g.payload ≡ rest =
      rw (cut.0, cut.1) (take-all (length rest) rest (omega arith)) in
    let out =
      accept_last fs position x xs p packs d part pos (omega arith) ei es (omega arith)
        (omega arith) (omega arith) (omega arith) in
    rw (out, whole, cut.1)
accept_rest checksum item id fs position x xs p packs rest (g ∷ h ∷ gs) part pos top ei es cut =
    let d = record (from_fragment item id g) { checksum = checksum (from_fragment item id g) } in
    let p' : Pack = record p { count_size = position + fs; offs = x ∷ (xs ++ (d ∷ [])) } in
    let out =
      accept_middle fs position x xs p packs d part pos (omega arith) ei es (omega arith)
        (omega arith) (omega arith) in
    let left = length-drop fs rest in
    let part' : Partly fs (position + fs) x (xs ++ (d ∷ [])) p' = record {
      nodes = refl;
      up = UpTo-next fs position x xs d part.up (omega arith);
      counted = refl;
      summed = omega (arith, sizes-snoc (x ∷ xs) d, part.summed);
      open_end = part.open_end;
      straight = part.straight;
    } in
    let ih =
      accept_rest checksum item id fs (position + fs) x (xs ++ (d ∷ [])) p' packs (drop fs rest)
        (h ∷ gs) part' pos (omega arith) ei es cut.4 in
    let count : position + fs + length (drop fs rest) ≡ position + length rest = omega arith in
    let piece : take g.size g.payload ≡ take fs rest =
      rw (cut.0, cut.1) (take-all fs (take fs rest) (omega (arith, length-take fs rest))) in
    let bytes : joined (x ∷ (xs ++ (d ∷ []))) ++ drop fs rest ≡ joined (x ∷ xs) ++ rest =
      joined_step (x ∷ xs) d fs rest piece in
    rw (out, ih, count, bytes)

first_pack : Datagram → Pack
first_pack d = record {
  id = d.id;
  src = d.src;
  count_size = d.size;
  total_size = 0;
  offs = d ∷ [];
  cyclic = false;
}

-- The first of several fragments, whatever else is pending.
accept_first :
    (packs : List Pack) (d : Datagram)
    → getid packs d.id d.src ≡ none
    → 0 < d.size
    → more_bit d.frag ≢ 0
    → accept packs d ≡ some ([], first_pack d ∷ packs)
unfolding accept first_pack
accept_first [] d e some_bytes more =
    let on = ne→not_== (more_bit d.frag) 0 more in
    let part = ne→not_== 0 d.size (omega arith) in rw (on, part)
accept_first (q ∷ qs) d e some_bytes more =
    let on = ne→not_== (more_bit d.frag) 0 more in
    let part = ne→not_== 0 d.size (omega arith) in rw (e, on, part)

-- Several fragments in order, from the first on.
pub accept_cut :
    (checksum : Datagram → ℕ) (item : WaitListItem) (id fs : ℕ) (packs : List Pack) (bytes : List ℕ)
    (frags : List Fragment)
    → 0 < fs
    → fs < length bytes
    → length bytes ≤ 2 ^ 15
    → getid packs id item.src ≡ none
    → IsCut fs false 0 bytes frags
    → accept_all packs (stamped checksum (from_fragments item id frags))
      ≡ some (
        record { protocol = item.protocol; src = item.src; size = length bytes; payload = bytes }
            ∷ [],
        packs,
      )
unfolding accept_all from_fragments first_pack
accept_cut checksum item id fs packs bytes [] pos big top fresh cut = absurd cut
accept_cut checksum item id fs packs bytes (g ∷ []) pos big top fresh cut = absurd (omega arith)
accept_cut checksum item id fs packs bytes (g ∷ h ∷ gs) pos big top fresh cut =
    let d = record (from_fragment item id g) { checksum = checksum (from_fragment item id g) } in
    let out = accept_first packs d fresh (omega arith) (omega arith) in
    let left = length-drop fs bytes in
    let part : Partly fs fs d [] (first_pack d) = record {
      nodes = refl;
      up = omega arith;
      counted = omega arith;
      summed = unfold sizes in omega arith;
      open_end = refl;
      straight = refl;
    } in
    let start : 0 + fs ≡ fs = omega arith in
    let cut' : IsCut fs false fs (drop fs bytes) (h ∷ gs) = rw start at cut.4 in
    let ih =
      accept_rest checksum item id fs fs d [] (first_pack d) packs (drop fs bytes) (h ∷ gs) part pos
        (omega arith) refl refl cut' in
    let piece : take g.size g.payload ≡ take fs bytes =
      rw (cut.0, cut.1) (take-all fs (take fs bytes) (omega (arith, length-take fs bytes))) in
    let whole : joined (d ∷ []) ++ drop fs bytes ≡ bytes = joined_step [] d fs bytes piece in
    let count : fs + length (drop fs bytes) ≡ length bytes = omega arith in
    rw (out, ih, count, whole)

stamped-from_fragments :
    (item : WaitListItem) (id : ℕ) (frags : List Fragment)
    → stamped (λ d. 0) (from_fragments item id frags) ≡ from_fragments item id frags
unfolding from_fragments
stamped-from_fragments item id [] = refl
stamped-from_fragments item id (g ∷ gs) =
    ap (λ ds. from_fragment item id g ∷ ds) (stamped-from_fragments item id gs)

-- A packet that has to be cut, of at most 2 ^ 15 bytes, over a link of at least 28 bytes: while
-- no packet of this sender is pending under its number, the receiver that takes in the fragments
-- in order hands up one packet, with the sender's protocol, address, size and bytes, and its list
-- of pending packets is then as it was.
pub accept_all-fragpack :
    (item : WaitListItem) (id mtu fuel : ℕ) (packs : List Pack)
    → length item.payload ≡ item.size
    → mtu < item.size + net_header_size
    → 28 ≤ mtu
    → mtu < 2 ^ 16
    → item.size ≤ 2 ^ 15
    → item.size < fuel
    → getid packs id item.src ≡ none
    → (frags : List Fragment) × (fragpack fuel item.payload item.size mtu 0 ≡ some (1, frags))
      × (accept_all packs (from_fragments item id frags)
          ≡ some (
            record {
              protocol = item.protocol;
              src = item.src;
              size = item.size;
              payload = item.payload;
            }
                ∷ [],
            packs,
          ))
accept_all-fragpack item id mtu fuel packs len big low high top enough fresh =
    let cut = fragpack_lem fuel item.payload item.size mtu len big low high top enough in
    let room = frag_size_bounds mtu low high in
    let out =
      accept_cut (λ d. 0) item id (frag_size mtu) packs item.payload cut.0 (omega arith)
        (omega arith) (omega arith) fresh cut.2 in
    let up = λ (n : ℕ).
      accept_all packs (from_fragments item id cut.0)
      ≡ some (
        record { protocol = item.protocol; src = item.src; size = n; payload = item.payload } ∷ [],
        packs,
      ) in
    let plain = stamped-from_fragments item id cut.0 in
    (cut.0, cut.1, subst up len (rw plain at out))
