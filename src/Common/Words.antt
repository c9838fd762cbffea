-- ===== src/Common/Words.antt =====
-- Machine words: C's unsigned arithmetic keeps its wrap-around.
use Prim.Native.Nat.{ℕ, ◌+◌, ◌-◌, ◌%◌, ◌^◌}

abbrev pub w8 : ℕ
w8 = 2 ^ 8

abbrev pub w16 : ℕ
w16 = 2 ^ 16

abbrev pub w32 : ℕ
w32 = 2 ^ 32

abbrev pub w64 : ℕ
w64 = 2 ^ 64

-- uint64_t, size_t and pointer arithmetic
abbrev pub add64 : ℕ → ℕ → ℕ
add64 a b = (a + b) % w64

abbrev pub sub64 : ℕ → ℕ → ℕ
sub64 a b = (a + w64 - b) % w64

abbrev pub add32 : ℕ → ℕ → ℕ
add32 a b = (a + b) % w32

abbrev pub sub32 : ℕ → ℕ → ℕ
sub32 a b = (a + w32 - b) % w32
