-- ===== src/Reloc/Highest.antt =====
-- The address behind all relocations that highest_relocation_addr finds.
use light_loader.Common.{
  ℕ, suc, ◌≤◌, ◌<◌, ◌≡◌, refl, ◌⊎◌, inl, inr, ◌==◌, ==_refl, ge→ltb, some, add64, w64, arith, List,
  [], ◌∷◌, if◌then◌else◌, Bool, true, false,
}
use light_loader.Memory.{MmapEntry, memory_get_closest_usable_addr}
use light_loader.Memory.Map.{Usable, closest-Usable}
use light_loader.Reloc.{Relocation, highest_loop, highest_relocation_addr}
use light_loader.Reloc.Nearest.{AllFit, SomeAhead, Clear, closest-Clear}

-- Every relocation ends at or below `r`.
abbrev pub AllEndBy : ℕ → List Relocation → Type 0
AllEndBy r [] = Unit {0}
AllEndBy r (i ∷ is) = (add64 i.target i.size ≤ r) × AllEndBy r is

pub AllEndBy-weaken : (r r' : ℕ) (is : List Relocation) → r ≤ r' → AllEndBy r is → AllEndBy r' is
AllEndBy-weaken r r' [] l h = tt
AllEndBy-weaken r r' (i ∷ is) l (e, h) = (omega arith, AllEndBy-weaken r r' is l h)

highest_loop-step :
    (i : Relocation) (is : List Relocation) (ret : ℕ)
    → ((ret < add64 i.target i.size)
        × (highest_loop (i ∷ is) ret ≡ highest_loop is (add64 i.target i.size)))
      ⊎ ((add64 i.target i.size ≤ ret) × (highest_loop (i ∷ is) ret ≡ highest_loop is ret))
unfolding highest_loop
highest_loop-step i is ret = grind arith

pub highest_loop_mono : (is : List Relocation) (ret : ℕ) → ret ≤ highest_loop is ret
unfolding highest_loop
highest_loop_mono [] ret = omega arith
highest_loop_mono (i ∷ is) ret = grind (
  arith,
  highest_loop-step i is ret,
  highest_loop_mono is ret,
  highest_loop_mono is (add64 i.target i.size),
)

pub highest_loop-AllEndBy : (is : List Relocation) (ret : ℕ) → AllEndBy (highest_loop is ret) is
highest_loop-AllEndBy [] ret = tt
highest_loop-AllEndBy (i ∷ is) ret = elim (highest_loop-step i is ret) [
  | inl s ↦ (
    rw s.1 (highest_loop_mono is (add64 i.target i.size)),
    AllEndBy-weaken (highest_loop is (add64 i.target i.size)) (highest_loop (i ∷ is) ret) is
        (omega (arith, s.1)) (highest_loop-AllEndBy is (add64 i.target i.size)),
  )
  | inr s ↦ (
    rw s.1 (omega (arith, highest_loop_mono is ret)),
    AllEndBy-weaken (highest_loop is ret) (highest_loop (i ∷ is) ret) is (omega (arith, s.1))
        (highest_loop-AllEndBy is ret),
  )
]

-- The loop keeps a bound that no end exceeds.
highest_loop_settled :
    (is : List Relocation) (ret : ℕ) → AllEndBy ret is → highest_loop is ret ≡ ret
unfolding highest_loop
highest_loop_settled [] ret h = refl
highest_loop_settled (i ∷ is) ret (e, h) =
    rw (ge→ltb ret (add64 i.target i.size) e) (highest_loop_settled is ret h)

pub highest_loop_least :
    (is : List Relocation) (ret b : ℕ) → AllEndBy b is → ret ≤ b → highest_loop is ret ≤ b
unfolding highest_loop
highest_loop_least [] ret b h l = l
highest_loop_least (i ∷ is) ret b (e, h) l =
    ground
      (arith, highest_loop_least is ret b h l, highest_loop_least is (add64 i.target i.size) b h e)

highest_loop_bound : (is : List Relocation) (ret : ℕ) → ret < w64 → highest_loop is ret < w64
unfolding highest_loop
highest_loop_bound [] ret h = h
highest_loop_bound (i ∷ is) ret h = ground (
  arith,
  highest_loop_bound is ret h,
  highest_loop_bound is (add64 i.target i.size) (omega arith),
)

if_same {ℓ} : {A : Type ℓ} (b : Bool) (x : A) → (if b then x else x) ≡ x
if_same true x = refl
if_same false x = refl

-- The search for a usable address at or behind the end of every relocation, in a memory map whose
-- entries have at least a byte each and do not wrap around: if the highest end is usable itself, or a
-- usable region begins behind it and nearer than what the uninitialised variable holds in the first
-- round, two rounds are enough, every relocation ends at or below the result, and the result is
-- usable.
pub highest_relocation_addr-Clear :
    (n : ℕ) (uninit : ℕ → ℕ) (mmap : List MmapEntry) (list : List Relocation)
    → AllFit mmap
    → Usable (highest_loop list 0) mmap ⊎ SomeAhead (highest_loop list 0) (uninit (suc n)) mmap
    → (r : ℕ) × (highest_relocation_addr (suc (suc n)) uninit mmap list 0 ≡ some r)
      × AllEndBy r list
      × Usable r mmap
unfolding highest_relocation_addr
highest_relocation_addr-Clear n uninit mmap list f h =
    rounds (memory_get_closest_usable_addr (uninit (suc n)) mmap (highest_loop list 0)) refl (
      closest-Clear (uninit (suc n)) (highest_loop list 0) mmap
        (highest_loop_bound list 0 (omega arith)) f h)
  where
    rounds :
        (r : ℕ)
        → memory_get_closest_usable_addr (uninit (suc n)) mmap (highest_loop list 0) ≡ r
        → Clear mmap (highest_loop list 0) r
        → (r : ℕ) × (highest_relocation_addr (suc (suc n)) uninit mmap list 0 ≡ some r)
          × AllEndBy r list
          × Usable r mmap
    rounds r e (l, u) =
        let ends = AllEndBy-weaken (highest_loop list 0) r list l (highest_loop-AllEndBy list 0) in
        (
          r,
          rw (e, highest_loop_settled list r ends, closest-Usable (uninit n) r mmap u, ==_refl r)
              (if_same (r == 0) (some r)),
          ends,
          u,
        )

-- A highest end that is usable itself is the result.
pub highest_relocation_addr-Usable :
    (n : ℕ) (uninit : ℕ → ℕ) (mmap : List MmapEntry) (list : List Relocation)
    → Usable (highest_loop list 0) mmap
    → highest_relocation_addr (suc (suc n)) uninit mmap list 0 ≡ some (highest_loop list 0)
unfolding highest_relocation_addr
highest_relocation_addr-Usable n uninit mmap list u =
    rw
      (
        closest-Usable (uninit (suc n)) (highest_loop list 0) mmap u,
        highest_loop_settled list (highest_loop list 0) (highest_loop-AllEndBy list 0),
        closest-Usable (uninit n) (highest_loop list 0) mmap u,
        ==_refl (highest_loop list 0),
      )
      (if_same (highest_loop list 0 == 0) (some (highest_loop list 0)))
