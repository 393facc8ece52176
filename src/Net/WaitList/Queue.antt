-- ===== src/Net/WaitList/Queue.antt =====
-- The ring is a first-in first-out queue of at most 100 packets.
use network_layer_full.Base.{
  ℕ, zero, suc, ◌+◌, ◌-◌, ◌%◌, ◌<◌, ◌≡◌, ◌≢◌, refl, ap, ap₂, ◌∙◌, Option, none, some, List, [], ◌∷◌,
  ◌++◌, arith, if◌then◌else◌, ◌==◌, length, length-append, length-set, get_elem?,
  get_elem?-set_self, get_elem?-set_ne, set, replicate, ne→not_==, eq→==,
}
use native.Mathlib.Decide.{ℕ_discrete}
use network_layer_full.Net.Send.{WaitListItem}
use network_layer_full.Net.WaitList.{
  WaitList, Semaphores, max_send_waiting, initial, wait_list_insert, wait_list_remove,
}

-- The slots from index `i` on, going round, hold the packets in order.
abbrev pub Holds : List WaitListItem → ℕ → List WaitListItem → Type 0
Holds slots i [] = Unit
Holds slots i (x ∷ xs) = (get_elem? slots i ≡ some x) × Holds slots ((i + 1) % max_send_waiting) xs

-- The ring is in the state of the queue `q`, oldest packet first.
pub record Represents (w : WaitList) (q : List WaitListItem) : Type 0 where
  pub storage : length w.slots ≡ max_send_waiting
  pub cons_in : w.cons_vector < max_send_waiting
  pub prod_at : w.prod_vector ≡ (w.cons_vector + length q + 99) % max_send_waiting
  pub to_consume : w.sem_cons ≡ length q
  pub to_produce : w.sem_prod + length q ≡ max_send_waiting
  pub holds : Holds w.slots w.cons_vector q

-- Writing behind the last packet appends it.
Holds-set :
    (slots : List WaitListItem) (start i : ℕ) (q : List WaitListItem) (x : WaitListItem)
    → length slots ≡ max_send_waiting
    → start < max_send_waiting
    → length q < max_send_waiting
    → i ≡ (start + length q) % max_send_waiting
    → Holds slots start q
    → Holds (set slots i x) start (q ++ (x ∷ []))
Holds-set slots start i [] x len hs hq e h =
    let here : i ≡ start = omega arith in
    rw here (get_elem?-set_self slots start x (omega arith), tt)
Holds-set slots start i (y ∷ q) x len hs hq e h =
    let apart : i ≢ start = omega arith in
    (
      get_elem?-set_ne slots i start x apart ∙ h.0,
      Holds-set slots ((start + 1) % max_send_waiting) i q x len (omega arith) (omega arith)
          (omega arith) h.1,
    )

length-replicate : (n : ℕ) (x : WaitListItem) → length (replicate n x) ≡ n
length-replicate zero x = refl
length-replicate (suc n) x = ap suc (length-replicate n x)

-- Neither semaphore has been used.
pub record IsNew (before : Semaphores) : Type 0 where
  pub prod_new : before.prod ≡ 0
  pub cons_new : before.cons ≡ 0

-- At a start with new semaphores the queue is empty.
pub initial-Represents :
    (zeroes : WaitListItem) (before : Semaphores)
    → IsNew before
    → Represents (initial zeroes before) []
unfolding initial
initial-Represents zeroes before new = record {
  storage = refl;
  cons_in = omega arith;
  prod_at = omega arith;
  to_consume = new.cons_new;
  to_produce = omega (arith, new.prod_new);
  holds = tt;
}

pub insert-Represents :
    (w : WaitList) (q : List WaitListItem) (x : WaitListItem)
    → Represents w q
    → length q < max_send_waiting
    → (w' : WaitList) × (wait_list_insert w x ≡ some w') × Represents w' (q ++ (x ∷ []))
unfolding wait_list_insert
insert-Represents w q x v lt =
    let prod = (w.prod_vector + 1) % max_send_waiting in
    let free = ne→not_== w.sem_prod 0 (omega (arith, v.to_produce)) in
    let longer = length-append q (x ∷ []) in
    let at : prod ≡ (w.cons_vector + length q) % max_send_waiting =
      omega (arith, v.prod_at, v.cons_in) in
    (
      record w {
        slots = set w.slots prod x;
        prod_vector = prod;
        sem_prod = w.sem_prod - 1;
        sem_cons = w.sem_cons + 1;
      },
      rw free,
      record {
        storage = length-set w.slots prod x ∙ v.storage;
        cons_in = v.cons_in;
        prod_at = omega (arith, longer, v.prod_at, v.cons_in);
        to_consume = omega (arith, longer, v.to_consume);
        to_produce = omega (arith, longer, v.to_produce);
        holds = Holds-set w.slots w.cons_vector prod q x v.storage v.cons_in lt at v.holds;
      },
    )

pub remove-Represents :
    (w : WaitList) (x : WaitListItem) (q : List WaitListItem)
    → Represents w (x ∷ q)
    → (w' : WaitList) × (wait_list_remove w ≡ some (x, w')) × Represents w' q
unfolding wait_list_remove
remove-Represents w x q v =
    let some_there = ne→not_== w.sem_cons 0 (omega (arith, v.to_consume)) in
    (
      record w {
        cons_vector = (w.cons_vector + 1) % max_send_waiting;
        sem_cons = w.sem_cons - 1;
        sem_prod = w.sem_prod + 1;
      },
      rw (some_there, v.holds.0),
      record {
        storage = v.storage;
        cons_in = omega arith;
        prod_at = omega (arith, v.prod_at, v.cons_in);
        to_consume = omega (arith, v.to_consume);
        to_produce = omega (arith, v.to_produce);
        holds = v.holds.1;
      },
    )

insert-full :
    (w : WaitList) (q : List WaitListItem) (x : WaitListItem)
    → Represents w q
    → length q ≡ max_send_waiting
    → wait_list_insert w x ≡ none
unfolding wait_list_insert
insert-full w q x v e = let full = eq→== w.sem_prod 0 (omega (arith, v.to_produce)) in rw full

remove-empty : (w : WaitList) → Represents w [] → wait_list_remove w ≡ none
unfolding wait_list_remove
remove-empty w v = let empty = eq→== w.sem_cons 0 v.to_consume in rw empty

-- The calls of the producers and of the sending thread, in the order in which they get through.
pub data Op : Type 0 where
  insert : WaitListItem → Op
  remove : Op

-- What a call sees. A call that has to wait changes nothing.
pub data Reply : Type 0 where
  done waits : Reply
  item : WaitListItem → Reply

after_insert : WaitList → Option WaitList → Reply × WaitList
after_insert w none = (waits, w)
after_insert w (some w') = (done, w')

after_remove : WaitList → Option (WaitListItem × WaitList) → Reply × WaitList
after_remove w none = (waits, w)
after_remove w (some (x, w')) = (item x, w')

unfoldable pub step : WaitList → Op → Reply × WaitList
unfolding after_insert after_remove
step w (insert x) = after_insert w (wait_list_insert w x)
step w remove = after_remove w (wait_list_remove w)

unfoldable pub run : WaitList → List Op → List Reply
unfolding step
run w [] = []
run w (op ∷ ops) = let (r, w') = step w op in r ∷ run w' ops

-- The specification: a queue of at most 100 packets.
unfoldable pub queue_step : List WaitListItem → Op → Reply × List WaitListItem
queue_step q (insert x) = if length q == max_send_waiting then (waits, q) else (done, q ++ (x ∷ []))
queue_step [] remove = (waits, [])
queue_step (x ∷ q) remove = (item x, q)

unfoldable pub queue_run : List WaitListItem → List Op → List Reply
unfolding queue_step
queue_run q [] = []
queue_run q (op ∷ ops) = let (r, q') = queue_step q op in r ∷ queue_run q' ops

step-Represents :
    (w : WaitList) (q : List WaitListItem) (op : Op)
    → Represents w q
    → ((step w op).0 ≡ (queue_step q op).0) × Represents (step w op).1 (queue_step q op).1
unfolding step queue_step
step-Represents w q (insert x) v = elim (ℕ_discrete (length q) max_send_waiting) [
  | yes full ↦ rw (insert-full w q x v full, eq→== (length q) max_send_waiting full) (refl, v)
  | no room ↦
      let out = insert-Represents w q x v (omega (arith, v.to_produce)) in
      rw (out.1, ne→not_== (length q) max_send_waiting room) (refl, out.2)
]
step-Represents w [] remove v = rw (remove-empty w v) (refl, v)
step-Represents w (x ∷ q) remove v = let out = remove-Represents w x q v in rw out.1 (refl, out.2)

run-eq-queue_run :
    (w : WaitList) (q : List WaitListItem) (ops : List Op)
    → Represents w q
    → run w ops ≡ queue_run q ops
unfolding run queue_run
run-eq-queue_run w q [] v = refl
run-eq-queue_run w q (op ∷ ops) v =
    let now = step-Represents w q op v in
    ap₂ ◌∷◌ now.0 (run-eq-queue_run (step w op).1 (queue_step q op).1 ops now.1)

-- From a start on at which the two semaphores are new, both with the value 0, every sequence of
-- insertions and removals sees what a first-in first-out queue of at most 100 packets would show:
-- the same packets in the same order, and waiting at the same calls.
pub run_refines_queue :
    (zeroes : WaitListItem) (before : Semaphores) (ops : List Op)
    → IsNew before
    → run (initial zeroes before) ops ≡ queue_run [] ops
run_refines_queue zeroes before ops new =
    run-eq-queue_run (initial zeroes before) [] ops (initial-Represents zeroes before new)
