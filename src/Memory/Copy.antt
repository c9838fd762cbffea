-- ===== src/Memory/Copy.antt =====
-- `memset`, `memcpy` and `memcmp`: what they write and what they compare.
use light_loader.Common.{
  ℕ, zero, suc, ◌+◌, ◌%◌, ◌≤◌, ◌<◌, ◌≡◌, ◌↔◌, refl, ◌∙◌, ◌⊎◌, inl, inr, true, w8, w64, add64, arith,
  le-or-lt, ==_refl,
}
use light_loader.Common.Bytes.{Mem, write}
use light_loader.Memory.{memset_loop, memset, memcpy_loop, memcpy, memcmp_loop, memcmp}

pub no_wrap : (a i : ℕ) → a + i < w64 → add64 a i ≡ a + i
no_wrap a i h = omega arith

pub write_ne : (m : Mem) (a v x : ℕ) → (x < a) ⊎ (a < x) → write m a v x ≡ m x
unfolding write
write_ne m a v x (inl h) = ground arith
write_ne m a v x (inr h) = ground arith

pub write_self : (m : Mem) (a v : ℕ) → write m a v a ≡ v
unfolding write
write_self m a v = ground arith

-- The bytes from `a + i` to `a + i + n`.
abbrev pub Beside : ℕ → ℕ → ℕ → Type 0
Beside a b x = (x < a) ⊎ (b ≤ x)

memcpy_loop_frame :
    (n : ℕ) (m : Mem) (dst src i x : ℕ)
    → dst + i + n < w64
    → Beside (dst + i) (dst + i + n) x
    → memcpy_loop n m dst src i x ≡ m x
unfolding memcpy_loop
memcpy_loop_frame zero m dst src i x h o = refl
memcpy_loop_frame (suc n) m dst src i x h o = rw (no_wrap dst i (omega arith)) (
    memcpy_loop_frame n (write m (dst + i) (m (add64 src i))) dst src (i + 1) x (omega arith)
      (grind arith)
    ∙ write_ne m (dst + i) (m (add64 src i)) x (grind arith))

memcpy_loop-copies :
    (n : ℕ) (m : Mem) (dst src i k : ℕ)
    → dst + i + n < w64
    → src + i + n < w64
    → (dst + i + n ≤ src + i) ⊎ (src + i + n ≤ dst + i)
    → i ≤ k
    → k < i + n
    → memcpy_loop n m dst src i (dst + k) ≡ m (src + k)
unfolding memcpy_loop
memcpy_loop-copies zero m dst src i k hd hs apart lo hi = absurd (omega arith)
memcpy_loop-copies (suc n) m dst src i k hd hs apart lo hi =
    rw (no_wrap dst i (omega arith), no_wrap src i (omega arith))
      (elim (le-or-lt k i) [
        | inl here ↦
            let e : k ≡ i = omega arith in
            rw e (
              memcpy_loop_frame n _ dst src (i + 1) (dst + i) (omega arith) (inl (omega arith))
              ∙ write_self m (dst + i) (m (src + i)))
        | inr later ↦
            memcpy_loop-copies n (write m (dst + i) (m (src + i))) dst src (i + 1) k (omega arith)
              (omega arith) (grind arith) (omega arith) (omega arith)
            ∙ write_ne m (dst + i) (m (src + i)) (src + k) (grind arith)
      ])

-- Between regions that do not wrap or overlap, the destination holds what the source held, and every other
-- byte is as it was.
pub memcpy_lem :
    (m : Mem) (dst src size : ℕ)
    → dst + size < w64
    → src + size < w64
    → (dst + size ≤ src) ⊎ (src + size ≤ dst)
    → ((k : ℕ) → k < size → memcpy m dst src size (dst + k) ≡ m (src + k))
      × ((x : ℕ) → (x < dst) ⊎ (dst + size ≤ x) → memcpy m dst src size x ≡ m x)
unfolding memcpy
memcpy_lem m dst src size hd hs apart = (
  λ k lt.
      memcpy_loop-copies size m dst src 0 k (omega arith) (omega arith) (grind arith) (omega arith)
        (omega arith),
  λ x o. memcpy_loop_frame size m dst src 0 x (omega arith) (grind arith),
)

memset_loop_frame :
    (n : ℕ) (m : Mem) (a v i x : ℕ)
    → a + i + n < w64
    → Beside (a + i) (a + i + n) x
    → memset_loop n m a v i x ≡ m x
unfolding memset_loop
memset_loop_frame zero m a v i x h o = refl
memset_loop_frame (suc n) m a v i x h o = rw (no_wrap a i (omega arith)) (
    memset_loop_frame n (write m (a + i) (v % w8)) a v (i + 1) x (omega arith) (grind arith)
    ∙ write_ne m (a + i) (v % w8) x (grind arith))

memset_loop-fills :
    (n : ℕ) (m : Mem) (a v i k : ℕ)
    → a + i + n < w64
    → i ≤ k
    → k < i + n
    → memset_loop n m a v i (a + k) ≡ v % w8
unfolding memset_loop
memset_loop-fills zero m a v i k h lo hi = absurd (omega arith)
memset_loop-fills (suc n) m a v i k h lo hi = rw (no_wrap a i (omega arith)) (elim (le-or-lt k i) [
  | inl here ↦
      let e : k ≡ i = omega arith in
      rw e (
        memset_loop_frame n _ a v (i + 1) (a + i) (omega arith) (inl (omega arith))
        ∙ write_self m (a + i) (v % w8))
  | inr later ↦
      memset_loop-fills n (write m (a + i) (v % w8)) a v (i + 1) k (omega arith) (omega arith)
        (omega arith)
])

-- A region that does not wrap holds the low byte of `val`, and every other byte is as it was.
pub memset_lem :
    (m : Mem) (start val size : ℕ)
    → start + size < w64
    → ((k : ℕ) → k < size → memset m start val size (start + k) ≡ val % w8)
      × ((x : ℕ) → (x < start) ⊎ (start + size ≤ x) → memset m start val size x ≡ m x)
unfolding memset
memset_lem m start val size h = (
  λ k lt. memset_loop-fills size m start val 0 k (omega arith) (omega arith) (omega arith),
  λ x o. memset_loop_frame size m start val 0 x (omega arith) (grind arith),
)

memcmp_loop_sound :
    (n : ℕ) (m : Mem) (a b i k : ℕ)
    → memcmp_loop n m a b i ≡ true
    → i ≤ k
    → k < i + n
    → m (add64 a k) ≡ m (add64 b k)
unfolding memcmp_loop
memcmp_loop_sound zero m a b i k e lo hi = absurd (omega arith)
memcmp_loop_sound (suc n) m a b i k e lo hi = elim (le-or-lt k i) [
  | inl here ↦ let k≡i : k ≡ i = omega arith in rw k≡i (ground arith)
  | inr later ↦ memcmp_loop_sound n m a b (i + 1) k (ground arith) (omega arith) (omega arith)
]

memcmp_loop_complete :
    (n : ℕ) (m : Mem) (a b i : ℕ)
    → ((k : ℕ) → i ≤ k → k < i + n → m (add64 a k) ≡ m (add64 b k))
    → memcmp_loop n m a b i ≡ true
unfolding memcmp_loop
memcmp_loop_complete zero m a b i h = refl
memcmp_loop_complete (suc n) m a b i h =
    rw (h i (omega arith) (omega arith), ==_refl (m (add64 b i)))
      (memcmp_loop_complete n m a b (i + 1) (λ k lo hi. h k (omega arith) (omega arith)))

-- `memcmp` is true exactly when the two regions hold the same bytes.
memcmp_iff :
    (m : Mem) (a b size : ℕ)
    → (memcmp m a b size ≡ true) ↔ ((k : ℕ) → k < size → m (add64 a k) ≡ m (add64 b k))
unfolding memcmp
memcmp_iff m a b size = (
  λ e k lt. memcmp_loop_sound size m a b 0 k e (omega arith) (omega arith),
  λ h. memcmp_loop_complete size m a b 0 (λ k lo hi. h k (omega arith)),
)
