-- ===== src/Common/Bytes.antt =====
-- Byte memory, and little-endian loads and stores of `w` bytes.
use light_loader.Common.Tests.{◌==◌, if◌then◌else◌}
use Prim.Native.Nat.{ℕ, zero, suc, ◌+◌, ◌*◌, ◌/◌, ◌%◌, ◌^◌, ◌≤◌, ◌<◌}
use mathlib.Core.Path.{◌≡◌, refl, ◌∙◌}
use mathlib.Core.Logic.{◌⊎◌, inl}
use native.Mathlib.Omega.{arith}
use native.Mathlib.Nat.{pow-suc}

abbrev pub Mem : Type 0
Mem = ℕ → ℕ

unfoldable pub write : Mem → ℕ → ℕ → Mem
write m a v x = if x == a then v else m x

unfoldable pub load : ℕ → Mem → ℕ → ℕ
load zero m a = 0
load (suc w) m a = m a + 256 * load w m (a + 1)

unfoldable pub store : ℕ → Mem → ℕ → ℕ → Mem
store zero m a v = m
store (suc w) m a v = store w (write m a (v % 256)) (a + 1) (v / 256)

-- Two memories agree from `a` up to, and not including, `b`.
abbrev pub SameOn : Mem → Mem → ℕ → ℕ → Type 0
SameOn m m' a b = (x : ℕ) → a ≤ x → x < b → m' x ≡ m x

-- A store changes its own bytes only.
pub store_frame : (w : ℕ) (m : Mem) (a v x : ℕ) → (x < a) ⊎ (a + w ≤ x) → store w m a v x ≡ m x
unfolding store write
store_frame zero m a v x h = refl
store_frame (suc w) m a v x h =
    store_frame w (write m a (v % 256)) (a + 1) (v / 256) x (grind arith) ∙ ground arith

pub load-SameOn :
    (w : ℕ) (m m' : Mem) (a b : ℕ) → a + w ≤ b → SameOn m m' a b → load w m' a ≡ load w m a
unfolding load
load-SameOn zero m m' a b h s = refl
load-SameOn (suc w) m m' a b h s =
    ground (arith, s a, load-SameOn w m m' (a + 1) b (omega arith) (λ x l u. s x (omega arith) u))

pub load-store_ne :
    (w w' : ℕ) (m : Mem) (a b v : ℕ)
    → (a + w ≤ b) ⊎ (b + w' ≤ a)
    → load w (store w' m b v) a ≡ load w m a
load-store_ne w w' m a b v h =
    load-SameOn w m (store w' m b v) a (a + w) (omega arith)
      (λ x l u. store_frame w' m b v x (grind arith))

pub load-store_self : (w : ℕ) (m : Mem) (a v : ℕ) → v < 256 ^ w → load w (store w m a v) a ≡ v
unfolding load store write
load-store_self zero m a v h = omega arith
load-store_self (suc w) m a v h =
    let low : v / 256 < 256 ^ w = omega (arith, pow-suc 256 w) in
    ground (
      arith,
      store_frame w (write m a (v % 256)) (a + 1) (v / 256) a (inl (omega arith)),
      load-store_self w (write m a (v % 256)) (a + 1) (v / 256) low,
    )
