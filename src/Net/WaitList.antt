-- ===== src/Net/WaitList.antt =====
-- The send queue of net_layer/net_layer.c: a ring of waiting packets between two counting
-- semaphores.
pub mod Queue
use network_layer_full.Base.{
  ℕ, ◌+◌, ◌-◌, ◌%◌, Option, none, some, List, [], ◌∷◌, ◌++◌, if◌then◌else◌, ◌==◌, ◌>>=◌, get_elem?,
  set, replicate,
}
use network_layer_full.Net.Send.{WaitListItem}

-- MAX_SEND_WAITING
abbrev pub max_send_waiting : ℕ
max_send_waiting = 100

-- `wait_list`, the two indices, and the values of the semaphores.
pub record WaitList : Type 0 where
  pub slots : List WaitListItem
  pub prod_vector : ℕ
  pub cons_vector : ℕ
  pub sem_prod : ℕ
  pub sem_cons : ℕ

-- The values of the two System V semaphores before the start. They outlive the process: 0 is what
-- new ones hold.
pub record Semaphores : Type 0 where
  pub prod : ℕ
  pub cons : ℕ

-- What the static initialisers and `net_init` set up: the slots hold zeroes, and `semop` adds to
-- what the first semaphore holds. A value past the system's limit, with which `net_init` calls
-- `exit`, is left out.
unfoldable pub initial : WaitListItem → Semaphores → WaitList
initial zeroes before = record {
  slots = replicate max_send_waiting zeroes;
  prod_vector = max_send_waiting - 1;
  cons_vector = 0;
  sem_prod = before.prod + max_send_waiting;
  sem_cons = before.cons;
}

-- `none`: the caller waits at the semaphore. All fields of the item are copied.
unfoldable pub wait_list_insert : WaitList → WaitListItem → Option WaitList
wait_list_insert w head =
    let prod = (w.prod_vector + 1) % max_send_waiting in
    if w.sem_prod == 0
    then none
    else some (record w {
      slots = set w.slots prod head;
      prod_vector = prod;
      sem_prod = w.sem_prod - 1;
      sem_cons = w.sem_cons + 1;
    })

unfoldable pub wait_list_remove : WaitList → Option (WaitListItem × WaitList)
wait_list_remove w = if w.sem_cons == 0 then none else (do
  tmp ← get_elem? w.slots w.cons_vector
  some (
    tmp,
    record w {
      cons_vector = (w.cons_vector + 1) % max_send_waiting;
      sem_cons = w.sem_cons - 1;
      sem_prod = w.sem_prod + 1;
    },
  ))
