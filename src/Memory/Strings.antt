-- ===== src/Memory/Strings.antt =====
-- `strncmp` and `strlen` on NUL-terminated strings in memory.
use light_loader.Common.{
  ℕ, zero, suc, ◌+◌, ◌≤◌, ◌<◌, ◌≡◌, ◌↔◌, ◌≢◌, refl, ap, ◌⊎◌, inl, inr, false, ◌==◌, add64, arith,
  Bool-cases, le-or-lt, ==_iff, some, pos,
}
use light_loader.Common.Bytes.{Mem}
use light_loader.Memory.{strncmp_loop, strncmp, strlen_loop, strlen}

-- From index `i` on, the next `n` characters agree up to the first NUL.
abbrev pub SameText : ℕ → Mem → ℕ → ℕ → ℕ → Type 0
SameText zero m s1 s2 i = Unit {0}
SameText (suc n) m s1 s2 i =
    (m (add64 s1 i) ≡ m (add64 s2 i)) × ((m (add64 s1 i) ≡ 0) ⊎ SameText n m s1 s2 (i + 1))

strncmp_loop_sound :
    (n : ℕ) (m : Mem) (s1 s2 i : ℕ) → strncmp_loop n m s1 s2 i ≡ pos 0 → SameText n m s1 s2 i
unfolding strncmp_loop
strncmp_loop_sound zero m s1 s2 i e = tt
strncmp_loop_sound (suc n) m s1 s2 i e = elim (Bool-cases (m (add64 s1 i) == m (add64 s2 i))) [
  | inl same ↦ (
    (==_iff _ _).0 same,
    elim (Bool-cases (m (add64 s1 i) == 0)) [
      | inl end ↦ inl ((==_iff _ 0).0 end)
      | inr more ↦ inr (strncmp_loop_sound n m s1 s2 (i + 1) (ground arith))
    ],
  )
  | inr differ ↦ absurd (ground arith)
]

strncmp_loop_complete :
    (n : ℕ) (m : Mem) (s1 s2 i : ℕ) → SameText n m s1 s2 i → strncmp_loop n m s1 s2 i ≡ pos 0
unfolding strncmp_loop
strncmp_loop_complete zero m s1 s2 i h = refl
strncmp_loop_complete (suc n) m s1 s2 i (e, inl end) = ground arith
strncmp_loop_complete (suc n) m s1 s2 i (e, inr more) =
    ground (arith, strncmp_loop_complete n m s1 s2 (i + 1) more)

-- strncmp returns 0 exactly when the first n characters of both strings agree, or agree up to and
-- with a first NUL.
pub strncmp_iff : (m : Mem) (s1 s2 n : ℕ) → (strncmp m s1 s2 n ≡ pos 0) ↔ SameText n m s1 s2 0
unfolding strncmp
strncmp_iff m s1 s2 n = (strncmp_loop_sound n m s1 s2 0, strncmp_loop_complete n m s1 s2 0)

strlen_loop-eq :
    (fuel : ℕ) (m : Mem) (s ret len : ℕ)
    → ret ≤ len
    → len < ret + fuel
    → ((k : ℕ) → ret ≤ k → k < len → m (add64 s k) ≢ 0)
    → m (add64 s len) ≡ 0
    → strlen_loop fuel m s ret ≡ some len
unfolding strlen_loop
strlen_loop-eq zero m s ret len lo hi text end = absurd (omega arith)
strlen_loop-eq (suc fuel) m s ret len lo hi text end = elim (le-or-lt len ret) [
  | inl here ↦
      let e : ret ≡ len = omega arith in
      let z : m (add64 s ret) ≡ 0 = rw e end in rw ((==_iff _ 0).1 z) (ap some e)
  | inr more ↦
      let nonzero : (m (add64 s ret) == 0) ≡ false = ground (arith, text ret (omega arith) more) in
      rw nonzero (
        strlen_loop-eq fuel m s (ret + 1) len (omega arith) (omega arith)
          (λ k l u. text k (omega arith) u) end)
]

-- A string of `len` characters before its NUL has length `len`, and `len + 1` rounds find it.
pub strlen_lem :
    (fuel : ℕ) (m : Mem) (s len : ℕ)
    → ((k : ℕ) → k < len → m (add64 s k) ≢ 0)
    → m (add64 s len) ≡ 0
    → len < fuel
    → strlen fuel m s ≡ some len
unfolding strlen
strlen_lem fuel m s len text end f =
    strlen_loop-eq fuel m s 0 len (omega arith) (omega arith) (λ k l u. text k u) end
