-- ===== src/Transport/Acks.antt =====
-- transport_layer/ack/ack_lst.c: the acknowledgements that a service point waits for.
pub mod Laws
use network_layer_full.Base.{
  ℕ, zero, suc, ◌+◌, ◌%◌, Bool, Option, none, some, List, [], ◌∷◌, ◌++◌, if◌then◌else◌, ◌==◌,
  size_mod,
}

-- `ack_lst_t`
pub record Ack : Type 0 where
  pub seq_num : ℕ
  pub flag : ℕ
  pub size : ℕ

unfoldable pub insert_ack : List Ack → Ack → List Ack
insert_ack lista novo = lista ++ (novo ∷ [])

-- A walk that has a predecessor.
unfoldable pub rm_after : List Ack → ℕ → List Ack
rm_after [] num = []
rm_after (a ∷ as') num = if a.seq_num == num then as' else a ∷ rm_after as' num

-- `prev` is not initialised, so at the first entry the test of `prev` has no defined result:
-- `none`.
unfoldable pub rm_ack : List Ack → ℕ → Option (List Ack)
unfolding rm_after
rm_ack [] num = some []
rm_ack (a ∷ as') num = if a.seq_num == num then none else some (a ∷ rm_after as' num)

unfoldable pub set_ack : List Ack → ℕ → List Ack
set_ack [] num = []
set_ack (a ∷ as') num =
    if a.seq_num == num then record a { flag = 1 } ∷ as' else a ∷ set_ack as' num

-- 1 also for a number that is not in the list.
unfoldable pub is_set : List Ack → ℕ → ℕ
is_set [] num = 1
is_set (a ∷ as') num = if a.seq_num == num then a.flag else is_set as' num

-- How far the window moves, and the acknowledgements that are left.
unfoldable pub in_seq : List Ack → ℕ × List Ack
in_seq [] = (0, [])
in_seq (a ∷ as') =
    let (size, rest) = in_seq as' in
    if a.flag == 0 then (0, a ∷ as') else ((a.size + size) % size_mod, rest)
