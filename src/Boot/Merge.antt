-- ===== src/Boot/Merge.antt =====
-- The memory map that get_multiboot_memorymap makes of the loader's.
use light_loader.Common.{
  ℕ, ◌+◌, ◌≤◌, ◌<◌, ◌≡◌, sym, ◌∙◌, le-or-lt, ◌⊎◌, ◌↔◌, inl, inr, ◌==◌, ==_iff, Bool-cases, List, [],
  ◌∷◌, w64, arith,
}
use mathlib.Core.Path.{subst}
use light_loader.Memory.{MmapEntry}
use light_loader.Boot.{
  MultibootEntry, get_multiboot_mmap_type, grow_entry, converted, memorymap_loop,
  get_multiboot_memorymap,
}

-- The entry holds the address as memory of the multiboot type `t`; an entry without a type is none.
abbrev pub Holds : ℕ → ℕ → MmapEntry → Type 0
Holds a t e =
    (0 < e.type) × (get_multiboot_mmap_type e.type ≡ t) × (e.paddr ≤ a) × (a < e.paddr + e.size)

-- Some entry of the loader's map does.
abbrev pub Covered : ℕ → ℕ → List MmapEntry → Type 0
Covered a t [] = ⊥
Covered a t (e ∷ es) = Holds a t e ⊎ Covered a t es

abbrev pub MultibootHolds : ℕ → ℕ → MultibootEntry → Type 0
MultibootHolds a t e = (e.mb_type ≡ t) × (e.addr ≤ a) × (a < e.addr + e.len)

-- Some entry of a multiboot map does.
abbrev pub MultibootCovered : ℕ → ℕ → List MultibootEntry → Type 0
MultibootCovered a t [] = ⊥
MultibootCovered a t (e ∷ es) = MultibootHolds a t e ⊎ MultibootCovered a t es

-- An entry starts where the one before it ends, if they have the same type.
abbrev pub Follows : MmapEntry → List MmapEntry → Type 0
Follows e [] = Unit {0}
Follows e (n ∷ es) = (e.type ≡ n.type) → n.paddr ≡ e.paddr + e.size

-- No entry wraps around, and there is no gap between two of the same type in a row.
abbrev pub Seamless : List MmapEntry → Type 0
Seamless [] = Unit {0}
Seamless (e ∷ es) = (e.paddr + e.size < w64) × Follows e es × Seamless es

-- Two sums with the same sides.
pub both : {A B C D : Type 0} → (A ↔ B) → (C ↔ D) → (A ⊎ C) ↔ (B ⊎ D)
both f g = (
  (λ h. elim h [ inl x ↦ inl (f.0 x) | inr x ↦ inr (g.0 x) ]),
  λ h. elim h [ inl x ↦ inl (f.1 x) | inr x ↦ inr (g.1 x) ],
)

converted-Holds :
    (a t : ℕ) (e : MmapEntry) → 0 < e.type → MultibootHolds a t (converted e) ↔ Holds a t e
unfolding converted
converted-Holds a t e z = ((λ h. (z, h.0, h.1, h.2)), λ h. (h.1, h.2, h.3))

-- The grown entry covers what the two did.
grown-Covered :
    (a t : ℕ) (e n : MmapEntry) (es : List MmapEntry)
    → e.type ≡ n.type
    → n.paddr ≡ e.paddr + e.size
    → n.paddr + n.size < w64
    → Covered a t (grow_entry e n ∷ es) ↔ Covered a t (e ∷ n ∷ es)
unfolding grow_entry
grown-Covered a t e n es y f w = (there, back)
  where
    there : Covered a t (grow_entry e n ∷ es) → Covered a t (e ∷ n ∷ es)
    there (inr h) = inr (inr h)
    there (inl h) = elim (le-or-lt (e.paddr + e.size) a) [
      | inl l ↦ inr (
          inl (
            omega arith,
            subst (λ k. get_multiboot_mmap_type k ≡ t) y h.1,
            omega arith,
            omega arith,
          ))
      | inr l ↦ inl (h.0, h.1, h.2, l)
    ]

    back : Covered a t (e ∷ n ∷ es) → Covered a t (grow_entry e n ∷ es)
    back (inl h) = inl (h.0, h.1, h.2, omega arith)
    back (inr (inl h)) = inl (
      omega arith,
      subst (λ k. get_multiboot_mmap_type k ≡ t) (sym y) h.1,
      omega arith,
      omega arith,
    )
    back (inr (inr h)) = inr h

grown-Seamless :
    (e n : MmapEntry) (es : List MmapEntry)
    → e.type ≡ n.type
    → Seamless (e ∷ n ∷ es)
    → Seamless (grow_entry e n ∷ es)
unfolding grow_entry
grown-Seamless e n [] y (w, f, (v, g, s)) = (omega (arith, f y), tt, tt)
grown-Seamless e n (k ∷ es) y (w, f, (v, g, s)) =
    (omega (arith, f y), (λ z. omega (arith, f y, g (sym y ∙ z))), s)

skip-Covered :
    (a t : ℕ) (e : MmapEntry) (es : List MmapEntry)
    → e.type ≡ 0
    → Covered a t es ↔ Covered a t (e ∷ es)
skip-Covered a t e es z = ((λ h. inr h), λ h. elim h [ inl x ↦ absurd (omega arith) | inr x ↦ x ])

memorymap_loop_step :
    (e n : MmapEntry) (es : List MmapEntry)
    → ((e.type ≡ 0) × ((memorymap_loop e (n ∷ es)).0 ≡ (memorymap_loop n es).0))
      ⊎ (((0 < e.type) × ((memorymap_loop e (n ∷ es)).0 ≡ converted e ∷ (memorymap_loop n es).0))
          ⊎ ((e.type ≡ n.type)
              × ((memorymap_loop e (n ∷ es)).0 ≡ (memorymap_loop (grow_entry e n) es).0)))
unfolding memorymap_loop
memorymap_loop_step e n es = ground arith

-- One equivalence behind another.
pub chain : {A B C : Type 0} → (A ↔ B) → (B ↔ C) → A ↔ C
chain f g = ((λ h. g.0 (f.0 h)), λ h. f.1 (g.1 h))

memorymap_loop_last :
    (a t : ℕ) (e : MmapEntry) → MultibootCovered a t (memorymap_loop e []).0 ↔ Covered a t (e ∷ [])
unfolding memorymap_loop
memorymap_loop_last a t e = elim (Bool-cases (e.type == 0)) [
  | inl z ↦ rw z (
    (λ h. absurd h),
    λ h. elim h [ inl x ↦ absurd (omega (arith, (==_iff e.type 0).0 z, x.0)) | inr x ↦ x ],
  )
  | inr p ↦ rw p (both (converted-Holds a t e (ground (arith, p))) ((λ h. h), λ h. h))
]

memorymap_loop-Covered :
    (a t : ℕ) (e : MmapEntry) (es : List MmapEntry)
    → Seamless (e ∷ es)
    → MultibootCovered a t (memorymap_loop e es).0 ↔ Covered a t (e ∷ es)
memorymap_loop-Covered a t e [] s = memorymap_loop_last a t e
memorymap_loop-Covered a t e (n ∷ es) s = elim (memorymap_loop_step e n es) [
  | inl z ↦
      subst (λ l. MultibootCovered a t l ↔ Covered a t (e ∷ n ∷ es)) (sym z.1)
        (chain (memorymap_loop-Covered a t n es s.2) (skip-Covered a t e (n ∷ es) z.0))
  | inr (inl p) ↦
      subst (λ l. MultibootCovered a t l ↔ Covered a t (e ∷ n ∷ es)) (sym p.1)
        (both (converted-Holds a t e p.0) (memorymap_loop-Covered a t n es s.2))
  | inr (inr g) ↦
      subst (λ l. MultibootCovered a t l ↔ Covered a t (e ∷ n ∷ es)) (sym g.1)
        (chain (memorymap_loop-Covered a t (grow_entry e n) es (grown-Seamless e n es g.0 s))
          (grown-Covered a t e n es g.0 (s.1 g.0) s.2.0))
]

-- In a map where no entry wraps around and no gap lies between two entries of the same type in a
-- row, the multiboot map covers an address as memory of a type exactly when an entry with a type
-- other than 0, which stands for that multiboot type, does.
pub get_multiboot_memorymap-Covered :
    (a t : ℕ) (es : List MmapEntry)
    → Seamless es
    → MultibootCovered a t (get_multiboot_memorymap es).0 ↔ Covered a t es
unfolding get_multiboot_memorymap
get_multiboot_memorymap-Covered a t [] s = ((λ h. h), λ h. h)
get_multiboot_memorymap-Covered a t (e ∷ es) s = memorymap_loop-Covered a t e es s
