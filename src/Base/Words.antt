-- ===== src/Base/Words.antt =====
-- `size_t` and `uint64_t` (64 bits) and `uint32_t`: the wrap-around of C++ written out.
use Prim.Native.Nat.{ℕ, ◌+◌, ◌-◌, ◌%◌, ◌^◌}

abbrev pub add64 : ℕ → ℕ → ℕ
add64 a b = (a + b) % 2 ^ 64

abbrev pub sub64 : ℕ → ℕ → ℕ
sub64 a b = (a + 2 ^ 64 - b) % 2 ^ 64

abbrev pub inc64 : ℕ → ℕ
inc64 a = (a + 1) % 2 ^ 64

abbrev pub dec64 : ℕ → ℕ
dec64 a = (a + (2 ^ 64 - 1)) % 2 ^ 64

abbrev pub inc32 : ℕ → ℕ
inc32 a = (a + 1) % 2 ^ 32
