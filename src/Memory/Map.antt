-- ===== src/Memory/Map.antt =====
-- The search for a usable address in the memory map.
use light_loader.Common.{ℕ, ◌≤◌, ◌<◌, ◌≡◌, ◌⊎◌, inl, inr, add64, arith, List, [], ◌∷◌}
use mathlib.Core.Path.{refl}
use light_loader.Memory.{MmapEntry, memmap_usable, closest_loop, memory_get_closest_usable_addr}

-- `addr` lies in an entry of usable memory.
abbrev pub Usable : ℕ → List MmapEntry → Type 0
Usable addr [] = ⊥
Usable addr (e ∷ es) =
    ((e.type ≡ memmap_usable) × (e.paddr ≤ addr) × (addr < add64 e.paddr e.size)) ⊎ Usable addr es

closest_loop-Usable :
    (addr best : ℕ) (es : List MmapEntry) → Usable addr es → closest_loop addr best es ≡ addr
unfolding closest_loop
closest_loop-Usable addr best [] u = absurd u
closest_loop-Usable addr best (e ∷ es) (inl u) = ground arith
closest_loop-Usable addr best (e ∷ es) (inr u) =
    ground (arith, closest_loop-Usable addr best es u, closest_loop-Usable addr e.paddr es u)

-- An address in usable memory is returned as it is, whatever the uninitialised variable held.
pub closest-Usable :
    (uninit addr : ℕ) (mmap : List MmapEntry)
    → Usable addr mmap
    → memory_get_closest_usable_addr uninit mmap addr ≡ addr
unfolding memory_get_closest_usable_addr
closest-Usable uninit addr mmap u = closest_loop-Usable addr uninit mmap u

-- Every usable entry ends below `addr`.
abbrev pub AllBelow : ℕ → List MmapEntry → Type 0
AllBelow addr [] = Unit {0}
AllBelow addr (e ∷ es) = ((e.type ≡ memmap_usable) → add64 e.paddr e.size < addr) × AllBelow addr es

closest_loop-AllBelow :
    (addr best : ℕ) (es : List MmapEntry) → AllBelow addr es → closest_loop addr best es ≡ best
unfolding closest_loop
closest_loop-AllBelow addr best [] h = refl
closest_loop-AllBelow addr best (e ∷ es) (below, h) =
    ground (arith, closest_loop-AllBelow addr best es h)

-- If every usable entry ends below the address, the result is the uninitialised variable.
closest-uninitialised :
    (uninit addr : ℕ) (mmap : List MmapEntry)
    → AllBelow addr mmap
    → memory_get_closest_usable_addr uninit mmap addr ≡ uninit
unfolding memory_get_closest_usable_addr
closest-uninitialised uninit addr mmap h = closest_loop-AllBelow addr uninit mmap h
