-- ===== src/Reloc/Nearest.antt =====
-- The usable memory at or behind an address that the search of common/memory.c finds.
use light_loader.Common.{
  ℕ, ◌+◌, ◌-◌, ◌≤◌, ◌<◌, ◌≡◌, refl, sym, ◌∙◌, ◌⊎◌, inl, inr, le-or-lt, add64, sub64, w64, arith,
  List, [], ◌∷◌,
}
use mathlib.Core.Path.{subst}
use light_loader.Memory.{MmapEntry, memmap_usable, closest_loop, memory_get_closest_usable_addr}
use light_loader.Memory.Map.{Usable, closest-Usable}

-- `e` is a usable region of at least one byte that begins at or behind `addr`, does not wrap around,
-- and begins nearer to it than `best` lies.
abbrev pub Ahead : ℕ → ℕ → MmapEntry → Type 0
Ahead addr best e =
    (e.type ≡ memmap_usable)
    × (0 < e.size)
    × (e.paddr + e.size < w64)
    × (addr ≤ e.paddr)
    × (e.paddr - addr < sub64 best addr)

-- Some entry is.
abbrev pub SomeAhead : ℕ → ℕ → List MmapEntry → Type 0
SomeAhead addr best [] = ⊥
SomeAhead addr best (e ∷ es) = Ahead addr best e ⊎ SomeAhead addr best es

-- The entries have a byte and do not wrap around.
abbrev pub AllFit : List MmapEntry → Type 0
AllFit [] = Unit {0}
AllFit (e ∷ es) = (0 < e.size) × (e.paddr + e.size < w64) × AllFit es

sub64_ge : (a b : ℕ) → b ≤ a → a < w64 → sub64 a b ≡ a - b
sub64_ge a b h l = omega arith

sub64_lt : (a b : ℕ) → a < b → b < w64 → sub64 a b ≡ a + w64 - b
sub64_lt a b h l = omega arith

-- What is ahead of an address is nearer than anything behind it.
SomeAhead-behind :
    (addr best q : ℕ) (es : List MmapEntry)
    → q < addr
    → addr < w64
    → SomeAhead addr best es
    → SomeAhead addr q es
SomeAhead-behind addr best q [] l a h = absurd h
SomeAhead-behind addr best q (e ∷ es) l a (inl (t, z, f, g, n)) =
    inl (t, z, f, g, omega (arith, sub64_lt q addr l a))
SomeAhead-behind addr best q (e ∷ es) l a (inr h) = inr (SomeAhead-behind addr best q es l a h)

-- A usable address at or behind `addr`.
abbrev pub Clear : List MmapEntry → ℕ → ℕ → Type 0
Clear es addr r = (addr ≤ r) × Usable r es

Clear-taken :
    (e : MmapEntry) (es : List MmapEntry) (addr r : ℕ)
    → (e.type ≡ memmap_usable) × (e.paddr < add64 e.paddr e.size)
    → ((r ≡ e.paddr) × (addr ≤ e.paddr)) ⊎ Clear es addr r
    → Clear (e ∷ es) addr r
Clear-taken e es addr r (t, z) (inl (q, l)) = (omega arith, inl (t, omega arith, omega arith))
Clear-taken e es addr r t (inr (l, u)) = (l, inr u)

-- What the search does with an entry.
closest_loop-step :
    (addr best : ℕ) (e : MmapEntry) (es : List MmapEntry)
    → ((e.type ≡ memmap_usable)
        × (e.paddr ≤ addr)
        × (addr < add64 e.paddr e.size)
        × (closest_loop addr best (e ∷ es) ≡ addr))
      ⊎ (((e.type ≡ memmap_usable)
            × (sub64 e.paddr addr < sub64 best addr)
            × (closest_loop addr best (e ∷ es) ≡ closest_loop addr e.paddr es))
          ⊎ (((e.type ≡ memmap_usable)
                → (add64 e.paddr e.size < addr) ⊎ (sub64 best addr ≤ sub64 e.paddr addr))
              × (closest_loop addr best (e ∷ es) ≡ closest_loop addr best es)))
unfolding closest_loop
closest_loop-step addr best e es = grind arith

-- From a `best` at or behind the address, the search keeps it or finds a usable address there.
closest_loop-Keeps :
    (addr best : ℕ) (es : List MmapEntry)
    → addr < w64
    → best < w64
    → AllFit es
    → addr ≤ best
    → ((closest_loop addr best es ≡ best) × (addr ≤ best))
      ⊎ Clear es addr (closest_loop addr best es)
unfolding closest_loop
closest_loop-Keeps addr best [] a b f h = inl (refl, h)
closest_loop-Keeps addr best (e ∷ es) a b (z, f, fs) h = elim (closest_loop-step addr best e es) [
  | inl s ↦ inr (subst (Clear (e ∷ es) addr) (sym s.3) (omega arith, inl (s.0, s.1, s.2)))
  | inr (inl s) ↦ inr (
      subst (Clear (e ∷ es) addr) (sym s.2) (
        Clear-taken e es addr (closest_loop addr e.paddr es) (s.0, omega arith)
          (closest_loop-Keeps addr e.paddr es a (omega arith) fs (taken_ahead s.1))))
  | inr (inr s) ↦ elim (closest_loop-Keeps addr best es a b fs h) [
    | inl k ↦ inl (s.1 ∙ k.0, h)
    | inr k ↦ inr (subst (Clear (e ∷ es) addr) (sym s.1) (k.0, inr k.1))
  ]
]
  where
    taken_ahead : sub64 e.paddr addr < sub64 best addr → addr ≤ e.paddr
    taken_ahead n = elim (le-or-lt addr e.paddr) [
      | inl l ↦ l
      | inr l ↦ absurd (omega (arith, sub64_lt e.paddr addr l a, sub64_ge best addr h b))
    ]

-- With an entry ahead that is nearer than `best`, the search finds a usable address.
pub closest_loop-Clear :
    (addr best : ℕ) (es : List MmapEntry)
    → addr < w64
    → AllFit es
    → SomeAhead addr best es
    → Clear es addr (closest_loop addr best es)
closest_loop-Clear addr best [] a f h = absurd h
closest_loop-Clear addr best (e ∷ es) a (z, f, fs) h = elim (closest_loop-step addr best e es) [
  | inl s ↦ subst (Clear (e ∷ es) addr) (sym s.3) (omega arith, inl (s.0, s.1, s.2))
  | inr (inl s) ↦ subst (Clear (e ∷ es) addr) (sym s.2) (
      Clear-taken e es addr (closest_loop addr e.paddr es) (s.0, omega arith)
        (taken (closest_loop-Clear addr e.paddr es a fs) h))
  | inr (inr s) ↦
      subst (Clear (e ∷ es) addr) (sym s.1) (skipped (closest_loop-Clear addr best es a fs) s.0 h)
]
  where
    taken :
        (SomeAhead addr e.paddr es → Clear es addr (closest_loop addr e.paddr es))
        → SomeAhead addr best (e ∷ es)
        → ((closest_loop addr e.paddr es ≡ e.paddr) × (addr ≤ e.paddr))
          ⊎ Clear es addr (closest_loop addr e.paddr es)
    taken later g = elim (le-or-lt addr e.paddr) [
      | inl l ↦ closest_loop-Keeps addr e.paddr es a (omega arith) fs l
      | inr l ↦ elim g [
        | inl (t, y, k, m, n) ↦ absurd (omega arith)
        | inr m ↦ inr (later (SomeAhead-behind addr best e.paddr es l a m))
      ]
    ]

    skipped :
        (SomeAhead addr best es → Clear es addr (closest_loop addr best es))
        → ((e.type ≡ memmap_usable)
            → (add64 e.paddr e.size < addr) ⊎ (sub64 best addr ≤ sub64 e.paddr addr))
        → SomeAhead addr best (e ∷ es)
        → Clear (e ∷ es) addr (closest_loop addr best es)
    skipped later n (inl (t, y, k, l, o)) = elim (n t) [
      | inl m ↦ absurd (omega arith)
      | inr m ↦ absurd (omega (arith, sub64_ge e.paddr addr l (omega arith)))
    ]
    skipped later n (inr g) = let found = later g in (found.0, inr found.1)

pub closest-Clear :
    (uninit addr : ℕ) (mmap : List MmapEntry)
    → addr < w64
    → AllFit mmap
    → Usable addr mmap ⊎ SomeAhead addr uninit mmap
    → Clear mmap addr (memory_get_closest_usable_addr uninit mmap addr)
unfolding memory_get_closest_usable_addr
closest-Clear uninit addr mmap a f (inl u) =
    subst (Clear mmap addr) (sym (closest-Usable uninit addr mmap u)) (omega arith, u)
closest-Clear uninit addr mmap a f (inr s) = closest_loop-Clear addr uninit mmap a f s
