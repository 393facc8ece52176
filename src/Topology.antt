-- ===== src/Topology.antt =====
-- project.c: the matrix of link MTUs, the host table, and the operations on them.
pub mod Laws
use network_layer_full.Base.{
  ℕ, zero, suc, ◌+◌, ◌-◌, List, Option, none, some, if◌then◌else◌, Bool, ◌&&◌, ◌||◌, ltb, leb, ◌==◌,
  get_elem?,
}
use network_layer_full.Base.Int.{ℤ, pos, negsuc, ltb_ℤ}

-- MAX_HOSTS
abbrev pub max_hosts : ℕ
max_hosts = 6

-- `host_t`
pub record Host : Type 0 where
  pub num : ℕ
  pub port : ℕ
  pub ip_addr : ℕ

-- The cells of `links`, read only at indices below `max_hosts`.
abbrev pub Links : Type 0
Links = ℕ → ℕ → ℤ

unfoldable pub initlinks : Links
initlinks i j = negsuc 0

-- An index that is out of range is `none`; `first - 1` at 0 is one.
unfoldable pub getmtu : Links → ℕ → ℕ → Option ℤ
getmtu links first second =
    if leb 1 first && leb first max_hosts && (leb 1 second && leb second max_hosts)
    then some (links (first - 1) (second - 1))
    else none

unfoldable pub findhost : List Host → ℕ → Option Host
findhost hosts num = if num == 0 then none else get_elem? hosts (num - 1)

abbrev pub update : Links → ℕ → ℕ → ℤ → Links
update links a b mtu i j = if i == a && j == b then mtu else links i j

-- The indices are used as they come, with no `- 1`.
unfoldable pub config_link : Links → ℕ → ℕ → ℤ → Option Links
config_link links source dest mtu =
    if ltb source max_hosts && ltb dest max_hosts
    then some (update (update links source dest mtu) dest source mtu)
    else none

-- if(max < x) max = x;
unfoldable pub bigger : ℤ → ℤ → ℤ
bigger max x = if ltb_ℤ max x then x else max

-- The inner loop of `get_max_mtu`: columns j to j + n - 1 of row i.
unfoldable pub max_row : Links → ℕ → ℕ → ℕ → ℤ → ℤ
unfolding bigger
max_row links i j zero max = max
max_row links i j (suc n) max = max_row links i (j + 1) n (bigger max (links i j))

unfoldable pub max_rows : Links → ℕ → ℕ → ℤ → ℤ
unfolding max_row
max_rows links i zero max = max
max_rows links i (suc n) max = max_rows links (i + 1) n (max_row links i 0 max_hosts max)

unfoldable pub get_max_mtu : Links → ℤ
unfolding max_rows
get_max_mtu links = max_rows links 0 max_hosts (pos 0)
