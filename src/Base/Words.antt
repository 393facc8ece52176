-- ===== src/Base/Words.antt =====
-- The unsigned integers of C as native numbers, and the single-bit operations of the source.
use Prim.Native.Nat.{ℕ, ◌+◌, ◌-◌, ◌/◌, ◌%◌, ◌^◌}
use network_layer_full.Base.Tests.{◌==◌, if◌then◌else◌}

abbrev pub u8 : ℕ → ℕ
u8 n = n % 2 ^ 8

abbrev pub u16 : ℕ → ℕ
u16 n = n % 2 ^ 16

abbrev pub u32 : ℕ → ℕ
u32 n = n % 2 ^ 32

abbrev pub size_mod : ℕ
size_mod = 2 ^ 64

-- `size_t` subtraction, which wraps.
abbrev pub sub_size : ℕ → ℕ → ℕ
sub_size a b = (a + size_mod - b) % size_mod

-- `x | 1 << k`
abbrev pub set_bit : ℕ → ℕ → ℕ
set_bit k x = if x / 2 ^ k % 2 == 0 then x + 2 ^ k else x
