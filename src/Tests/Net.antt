-- ===== src/Tests/Net.antt =====
-- Examples for net_layer/.
use network_layer_full.Tests.Topologies.{new_sems-IsNew, new_sems}
use network_layer_full.Base.{
  ℕ, ◌+◌, ◌%◌, ◌≤◌, ◌≡◌, ◌≢◌, ◌⊎◌, refl, inr, true, false, List, [], ◌∷◌, ◌++◌, All, arith, some,
  none, if◌then◌else◌, ◌==◌,
}
use network_layer_full.Base.Int.{ℤ, pos, negsuc}
use network_layer_full.Net.Datagram.{Datagram, net_header_size, offset_of, more_bit}
use network_layer_full.Net.Frag.{Fragment, frag_size, fragpack, fragpack2}
use network_layer_full.Net.Frag.Laws.{IsCut, payloads, fragpack2_lem, fragpack_endless}
use network_layer_full.Net.Packs.{
  Pack, getid, removeid, update_id, addoffset, walk, inserted, insert_more, insert_at, insertoffset,
  sizes, getpack, get_from, undefined,
}
use network_layer_full.Net.Packs.Counts.{IsCounted, TakesOut, getpack-insertoffset}
use network_layer_full.Net.Packs.InOrder.{accept_all-fragpack}
use network_layer_full.Net.Recv.Accept.{accept_all}
use network_layer_full.Net.Send.{WaitListItem, from_fragments}
use network_layer_full.Net.Routes.{
  Route, Routing, neighbors_init, fillallroutes, add_neighbors, disable_route, forget, handle_route,
  learn, hostreachable,
}
use network_layer_full.Net.Routes.Laws.{Step, learned, disable_route_lem}
use network_layer_full.Net.WaitList.{initial}
use network_layer_full.Net.WaitList.Queue.{insert, remove, run, queue_run, run_refines_queue}

abbrev bytes : List ℕ
bytes = 1 ∷ 2 ∷ 3 ∷ 4 ∷ 5 ∷ 6 ∷ 7 ∷ 8 ∷ 9 ∷ 10 ∷ 11 ∷ []

abbrev packet : WaitListItem
packet = record {
  dest = 4;
  src = 2;
  payload = bytes;
  offset = 0;
  ttl = 7;
  size = 11;
  protocol = 1;
  id = 77;
  first_dest_link = 3;
}

-- A middle fragment of 11 bytes at offset 16, cut again for a link of 28 bytes.
fragpack2_lem_example :
    (frags : List Fragment) × (fragpack2 12 bytes 11 28 32784 ≡ some (1, frags))
    × IsCut (frag_size 28) (more_bit 32784 == 1) (offset_of 32784) bytes frags
    × (payloads frags ≡ bytes)
    × All (λ g. g.size + net_header_size ≤ 28) frags
    × (frag_size 28 % 8 ≡ 0)
fragpack2_lem_example =
    fragpack2_lem 12 bytes 11 28 32784 refl (omega arith) (omega arith) (omega arith) (omega arith)
      (omega arith) (omega arith)

fragpack_endless_example :
    (fragpack 1000 bytes 11 27 0 ≡ none) × (fragpack2 1000 bytes 11 27 0 ≡ none)
fragpack_endless_example =
    fragpack_endless 1000 bytes 11 27 0 (omega arith) (omega arith) (omega arith) (omega arith)
      (omega arith)

abbrev fragment : ℕ → ℕ → List ℕ → Datagram
fragment size frag payload = record {
  size = size;
  id = 77;
  frag = frag;
  protocol = 1;
  ttl = 7;
  dest = 4;
  src = 2;
  payload = payload;
  checksum = 0;
}

-- A packet of another host, of which one fragment has arrived.
abbrev pending : Pack
pending = record {
  id = 9;
  src = 5;
  count_size = 3;
  total_size = 0;
  offs = record (fragment 3 32768 (1 ∷ 1 ∷ 1 ∷ [])) { id = 9; src = 5 } ∷ [];
  cyclic = false;
}

accept_all-fragpack_example :
    (frags : List Fragment) × (fragpack 12 bytes 11 28 0 ≡ some (1, frags))
    × (accept_all (pending ∷ []) (from_fragments packet 77 frags)
        ≡ some (record { protocol = 1; src = 2; size = 11; payload = bytes } ∷ [], pending ∷ []))
accept_all-fragpack_example =
    accept_all-fragpack packet 77 28 12 (pending ∷ []) refl (omega arith) (omega arith)
      (omega arith) (omega arith) (omega arith) (unfold getid in refl)

-- The first 8 bytes are there, and the last fragment arrives.
abbrev half : Pack
half = record {
  id = 77;
  src = 2;
  count_size = 8;
  total_size = 0;
  offs = fragment 8 32768 (1 ∷ 2 ∷ 3 ∷ 4 ∷ 5 ∷ 6 ∷ 7 ∷ 8 ∷ []) ∷ [];
  cyclic = false;
}

abbrev last_one : Datagram
last_one = fragment 3 8 (9 ∷ 10 ∷ 11 ∷ [])

abbrev whole : Pack
whole = record half { count_size = 11; total_size = 11; offs = half.offs ++ (last_one ∷ []) }

completes : insertoffset (half ∷ []) last_one ≡ inserted true (whole ∷ [])
unfolding insertoffset insert_at insert_more getid addoffset walk update_id
completes = refl

getpack-insertoffset_example :
    All IsCounted (whole ∷ [])
    × ((p : Pack) × (getid (whole ∷ []) 77 2 ≡ some p)
        × (p.id ≡ 77)
        × (p.src ≡ 2)
        × TakesOut (whole ∷ []) p (getpack (whole ∷ []) 77 2))
    × All IsCounted (removeid (whole ∷ []) 77 2)
getpack-insertoffset_example =
    getpack-insertoffset (half ∷ []) last_one (inr (unfold sizes in refl), tt) (omega arith, tt)
      completes

-- Four fragments of 8 bytes, of which the third comes last: it is put before the second, with which
-- it forms a circle, and the packet is reported as complete.
abbrev part : ℕ → Datagram
part frag = fragment 8 frag (1 ∷ 2 ∷ 3 ∷ 4 ∷ 5 ∷ 6 ∷ 7 ∷ 8 ∷ [])

abbrev three_parts : Pack
three_parts = record half {
  count_size = 24;
  total_size = 32;
  offs = part 32768 ∷ part 32776 ∷ part 24 ∷ [];
}

abbrev circle : Pack
circle = record half {
  count_size = 32;
  total_size = 32;
  offs = part 32768 ∷ part 32784 ∷ part 32776 ∷ [];
  cyclic = true;
}

closes_circle : insertoffset (three_parts ∷ []) (part 32784) ≡ inserted true (circle ∷ [])
unfolding insertoffset insert_at insert_more getid addoffset walk update_id
closes_circle = refl

circle_endless : getpack (circle ∷ []) 77 2 ≡ undefined
unfolding getpack getid get_from
circle_endless = refl

-- Host 2 of a ring of four.
abbrev way : ℕ → ℤ
way i = if i == 0 then pos 1500 else (if i == 2 then pos 1500 else negsuc 0)

abbrev blank : Routing
blank = record {
  num = 2;
  neighbors = λ i. 0;
  routes = λ i. record { dest = 0; cost = 0; gateway = 0 };
}

abbrev started : Routing
started = add_neighbors (fillallroutes (neighbors_init way blank))

-- Host 3 tells that it reaches host 4 at a cost of 2.
abbrev by_3 : Route
by_3 = record { dest = 4; cost = 2; gateway = 3 }

heard : handle_route started by_3 ≡ some (learn started by_3)
unfolding handle_route
heard = refl

switched_off : disable_route started 3 ≡ some (forget started 3)
unfolding disable_route
switched_off = refl

abbrev told_by_3 : Step started (learn started by_3)
told_by_3 =
    learned by_3
      (record {
        priced = omega arith;
        from_host = omega arith;
        from_other = unfold add_neighbors fillallroutes neighbors_init in omega arith;
        from_neighbor = unfold add_neighbors fillallroutes neighbors_init in refl;
      })
      heard

disable_route_lem_example :
    let s' = forget started 3 in
    (hostreachable s' 1 ≢ 3)
    × ((◌≡◌ {A = ℕ} 1 3)
        ⊎ ((started.routes 0).gateway ≡ 3)
        ⊎ (hostreachable s' 1 ≡ hostreachable started 1))
disable_route_lem_example =
    disable_route_lem started 3 1 (unfold add_neighbors fillallroutes neighbors_init in omega arith)
      switched_off

run_refines_queue_example :
    run (initial packet new_sems) (remove ∷ insert packet ∷ remove ∷ [])
    ≡ queue_run [] (remove ∷ insert packet ∷ remove ∷ [])
run_refines_queue_example =
    run_refines_queue packet new_sems (remove ∷ insert packet ∷ remove ∷ []) new_sems-IsNew
