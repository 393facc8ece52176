-- ===== src/Net/Packs.antt =====
-- net_layer/list/net_list.c: the packets of which fragments have arrived, and their assembly.
pub mod Keys
pub mod Counts
pub mod Partly
pub mod InOrder
use network_layer_full.Base.{
  ℕ, ◌+◌, ◌%◌, ◌^◌, Bool, true, false, ◌&&◌, Option, none, some, List, [], ◌∷◌, ◌++◌, if◌then◌else◌,
  ◌==◌, take, size_mod,
}
use network_layer_full.Net.Datagram.{Datagram, offset_of, more_bit}

-- `packlst_t`, but for `time`, which is not used, and `next`. `offs` are the nodes of the list in
-- order; `cyclic`: the last of them points at the one before it, and not nowhere.
pub record Pack : Type 0 where
  pub id : ℕ
  pub src : ℕ
  pub count_size : ℕ
  pub total_size : ℕ
  pub offs : List Datagram
  pub cyclic : Bool

abbrev pub has_key : ℕ → ℕ → Pack → Bool
has_key id src p = p.id == id && p.src == src

unfoldable pub getid : List Pack → ℕ → ℕ → Option Pack
getid [] id src = none
getid (p ∷ ps) id src = if has_key id src p then some p else getid ps id src

-- The first entry with the key is taken out.
unfoldable pub removeid : List Pack → ℕ → ℕ → List Pack
removeid [] id src = []
removeid (p ∷ ps) id src = if has_key id src p then ps else p ∷ removeid ps id src

-- A write through the pointer that `getid` returned.
unfoldable pub update_id : List Pack → ℕ → ℕ → Pack → List Pack
update_id [] id src p' = []
update_id (p ∷ ps) id src p' = if has_key id src p then p' ∷ ps else p ∷ update_id ps id src p'

-- Prepends an entry with no fragments; `count_size` is already that of the first.
unfoldable pub initpacklst : List Pack → ℕ → ℕ → ℕ → Pack × List Pack
initpacklst packs id src size = (
  record { id = id; src = src; count_size = size; total_size = 0; offs = []; cyclic = false },
  packs,
)

-- What `addoffset` does to the nodes of a list. `looped`: the new node and the one behind it point
-- at each other, which closes the list to a circle and loses what came after. `broken` is a store
-- through `prev`, which is null at the first node; `endless` is a walk round a circle.
pub data Added : Type 0 where
  added looped : List Datagram → Added
  duplicate broken endless : Added

-- The node `x`, in front of the node `y` from which the walk for `d` goes on. A match at `y` finds
-- `prev` at `x`: `y->next = new`, `new->next = prev->next`, which is `y`, and `prev->next = new`.
abbrev pub behind : Datagram → Datagram → Datagram → Added → Added
behind x y d (added xs) = added (x ∷ xs)
behind x y d (looped xs) = looped (x ∷ xs)
behind x y d duplicate = duplicate
behind x y d broken = looped (x ∷ d ∷ y ∷ [])
behind x y d endless = endless

-- The walk from the node `x` on.
unfoldable pub walk : Datagram → List Datagram → Datagram → Added
walk x [] d = if offset_of x.frag == offset_of d.frag then duplicate else added (x ∷ d ∷ [])
walk x (y ∷ ys) d =
    if (offset_of x.frag + d.size) % size_mod == offset_of d.frag
    then broken
    else behind x y d (walk y ys d)

-- The same where the last node points at the one before it, so that every node has a next one.
unfoldable pub walk_circle : Datagram → List Datagram → Datagram → Added
walk_circle x [] d =
    if (offset_of x.frag + d.size) % size_mod == offset_of d.frag then broken else endless
walk_circle x (y ∷ ys) d =
    let rest = behind x y d (walk_circle y ys d) in
    if (offset_of x.frag + d.size) % size_mod == offset_of d.frag then broken else rest

unfoldable pub addoffset : Bool → List Datagram → Datagram → Added
unfolding walk walk_circle
addoffset cyclic [] d = added (d ∷ [])
addoffset false (x ∷ xs) d = walk x xs d
addoffset true (x ∷ xs) d = walk_circle x xs d

-- `islastfrag`
abbrev pub islastfrag : Datagram → Bool
islastfrag d = more_bit d.frag == 0

abbrev pub last_total : Datagram → ℕ
last_total d = (d.size + offset_of d.frag) % size_mod

-- The list after the call and what it returns: whether the packet is complete. `crash` is an access
-- through a null pointer; `hangs` is a call that does not end.
pub data Inserted : Type 0 where
  inserted : Bool → List Pack → Inserted
  crash hangs : Inserted

-- A first fragment while the list is empty.
unfoldable pub insert_first : Datagram → Inserted
unfolding initpacklst
insert_first d =
    let (p, packs) = initpacklst [] d.id d.src d.size in
    let p' = record p {
      total_size = if islastfrag d then last_total d else p.total_size;
      offs = d ∷ [];
    } in
    inserted (p'.total_size == p'.count_size) (p' ∷ packs)

-- A first fragment beside other packets: `total_size` is written through `aux`, which is null.
unfoldable pub insert_new : List Pack → Datagram → Inserted
unfolding initpacklst
insert_new packs d =
    let (p, packs') = initpacklst packs d.id d.src d.size in
    if islastfrag d
    then crash
    else inserted (p.total_size == p.count_size) (record p { offs = d ∷ [] } ∷ packs')

-- The counters of the packet `p` when `addoffset` has returned TRUE.
abbrev pub count_in : List Pack → Datagram → Pack → List Datagram → Bool → Inserted
count_in packs d p offs cyclic =
    let p' = record p {
      count_size = (p.count_size + d.size) % size_mod;
      total_size = if islastfrag d then last_total d else p.total_size;
      offs = offs;
      cyclic = cyclic;
    } in
    inserted (p'.total_size == p'.count_size) (update_id packs d.id d.src p')

-- A further fragment of the packet `p`.
unfoldable pub insert_more : List Pack → Datagram → Pack → Added → Inserted
insert_more packs d p broken = crash
insert_more packs d p duplicate = inserted false packs
insert_more packs d p endless = hangs
insert_more packs d p (added offs) = count_in packs d p offs p.cyclic
insert_more packs d p (looped offs) = count_in packs d p offs true

unfoldable pub insert_at : List Pack → Datagram → Option Pack → Inserted
unfolding insert_new insert_more addoffset update_id
insert_at packs d none = insert_new packs d
insert_at packs d (some p) = insert_more packs d p (addoffset p.cyclic p.offs d)

unfoldable pub insertoffset : List Pack → Datagram → Inserted
unfolding insert_first insert_at getid
insertoffset [] d = insert_first d
insertoffset (p ∷ ps) d = insert_at (p ∷ ps) d (getid (p ∷ ps) d.id d.src)

-- The bytes that the copies write, in list order.
unfoldable pub joined : List Datagram → List ℕ
joined [] = []
joined (d ∷ ds) = take d.size d.payload ++ joined ds

unfoldable pub sizes : List Datagram → ℕ
sizes [] = 0
sizes (d ∷ ds) = d.size + sizes ds

-- The packet's bytes, its `total_size`, and the list without it. `undefined` is a write past the
-- `total_size` bytes allocated, as the copying round a circle becomes, or never ends, or bytes
-- among them that nothing has written; `absent` is NULL.
pub data Got : Type 0 where
  got : List ℕ → ℕ → List Pack → Got
  absent undefined : Got

unfoldable pub get_from : List Pack → Option Pack → Got
unfolding removeid joined sizes
get_from packs none = absent
get_from packs (some p) =
    if p.cyclic
    then undefined
    else (if sizes p.offs == p.total_size
        then got (joined p.offs) p.total_size (removeid packs p.id p.src)
        else undefined)

unfoldable pub getpack : List Pack → ℕ → ℕ → Got
unfolding get_from getid
getpack packs id src = get_from packs (getid packs id src)
