-- ===== src/Topology/Laws.antt =====
-- Links are symmetric, and `get_max_mtu` is a bound.
use network_layer_full.Base.{ℕ, zero, suc, ◌+◌, ◌-◌, ◌≤◌, ◌<◌, ◌≡◌, refl, arith, some}
use native.Mathlib.Decide.{dec_lt}
use network_layer_full.Base.Int.{ℤ, pos, ◌≤ℤ◌}
use network_layer_full.Topology.{
  max_hosts, Links, getmtu, config_link, bigger, max_row, max_rows, get_max_mtu,
}

-- When `config_link` is called with two host numbers, as the application calls it, and writes
-- inside the table, the MTU that `getmtu` gives for these two hosts, in both directions, is as it
-- was.
pub config_link-getmtu_unchanged :
    (links links' : Links) (a b : ℕ) (mtu : ℤ)
    → config_link links a b mtu ≡ some links'
    → (getmtu links' a b ≡ getmtu links a b) × (getmtu links' b a ≡ getmtu links b a)
unfolding config_link getmtu
config_link-getmtu_unchanged links links' a b mtu e = (ground arith, ground arith)

abbrev pub IsSymmetric : Links → Type 0
IsSymmetric links = (i j : ℕ) → links i j ≡ links j i

-- If every link has the same MTU in both directions, then this is so after `config_link`.
pub config_link-IsSymmetric :
    (links links' : Links) (a b : ℕ) (mtu : ℤ)
    → IsSymmetric links
    → config_link links a b mtu ≡ some links'
    → IsSymmetric links'
unfolding config_link
config_link-IsSymmetric links links' a b mtu sym_links e i j = ground (arith, sym_links i j)

bigger_bounds : (max x : ℤ) → (max ≤ℤ bigger max x) × (x ≤ℤ bigger max x)
unfolding bigger
bigger_bounds max x = ground arith

-- The loop never lowers the maximum, and passes every cell of its range.
max_row_lem :
    (links : Links) (i j n : ℕ) (max : ℤ)
    → (max ≤ℤ max_row links i j n max)
      × ((k : ℕ) → j ≤ k → k < j + n → links i k ≤ℤ max_row links i j n max)
max_row_lem links i j zero max = (unfold max_row in omega arith, λ k lo hi. absurd (omega arith))
max_row_lem links i j (suc n) max =
    let ih = max_row_lem links i (j + 1) n (bigger max (links i j)) in
    let step = bigger_bounds max (links i j) in
    let e : max_row links i j (suc n) max ≡ max_row links i (j + 1) n (bigger max (links i j)) =
      unfold max_row in refl in
    rw e (
      omega (arith, ih, step),
      λ k lo hi. elim (dec_lt j k) [
        | yes above ↦ ih.1 k (omega arith) (omega arith)
        | no same ↦ let here : k ≡ j = omega arith in rw here (omega (arith, ih, step))
      ],
    )

max_rows_lem :
    (links : Links) (i n : ℕ) (max : ℤ)
    → (max ≤ℤ max_rows links i n max)
      × ((r k : ℕ) → i ≤ r → r < i + n → k < max_hosts → links r k ≤ℤ max_rows links i n max)
max_rows_lem links i zero max =
    (unfold max_rows in omega arith, λ r k lo hi h. absurd (omega arith))
max_rows_lem links i (suc n) max =
    let m = max_row links i 0 max_hosts max in
    let ih = max_rows_lem links (i + 1) n m in
    let row = max_row_lem links i 0 max_hosts max in
    let e : max_rows links i (suc n) max ≡ max_rows links (i + 1) n m = unfold max_rows in refl in
    rw e (
      omega (arith, ih, row),
      λ r k lo hi h. elim (dec_lt i r) [
        | yes above ↦ ih.1 r k (omega arith) (omega arith) h
        | no same ↦
            let here : r ≡ i = omega arith in
            let cell = row.1 k (omega arith) (omega arith) in rw here (omega (arith, ih, cell))
      ],
    )

-- `get_max_mtu` is at least 0 and at least the MTU of every pair of hosts.
pub getmtu-le-get_max_mtu :
    (links : Links) (a b : ℕ) {mtu : ℤ}
    → getmtu links a b ≡ some mtu
    → (mtu ≤ℤ get_max_mtu links) × (pos 0 ≤ℤ get_max_mtu links)
unfolding getmtu get_max_mtu
getmtu-le-get_max_mtu links a b e = ground (
  arith,
  (max_rows_lem links 0 max_hosts (pos 0)).0,
  (max_rows_lem links 0 max_hosts (pos 0)).1 (a - 1) (b - 1),
)
