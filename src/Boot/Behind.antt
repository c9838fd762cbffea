-- ===== src/Boot/Behind.antt =====
-- A page behind every relocation.
use light_loader.Common.{
  ℕ, ◌+◌, ◌%◌, ◌^◌, ◌≤◌, ◌<◌, ◌≡◌, refl, ◌⊎◌, inl, inr, gt→==_false, Option, none, some, List, [],
  ◌∷◌, ◌++◌, add64, sub64, w64, arith,
}
use mathlib.Core.Path.{ap}
use light_loader.Heap.{align_up}
use light_loader.Memory.{MmapEntry}
use light_loader.Memory.Map.{Usable}
use light_loader.Reloc.{Relocation, find_relocation, highest_loop, highest_relocation_addr}
use light_loader.Reloc.Highest.{AllEndBy, AllEndBy-weaken, highest_loop_least}
use light_loader.Reloc.Nearest.{AllFit, SomeAhead}
use light_loader.Reloc.Segments.{create_relocation_fresh}
use light_loader.Boot.{relocate_to, relocate_ramdisk, prepare_multiboot_buffer, multiboot_buff_size}

-- Every entry of the map ends below `b`.
abbrev pub MapBelow : ℕ → List MmapEntry → Type 0
MapBelow b [] = Unit {0}
MapBelow b (e ∷ es) = (add64 e.paddr e.size ≤ b) × MapBelow b es

pub MapBelow-weaken : {b c : ℕ} (mmap : List MmapEntry) → MapBelow b mmap → b ≤ c → MapBelow c mmap
MapBelow-weaken [] m l = tt
MapBelow-weaken (e ∷ es) (m, ms) l = (omega arith, MapBelow-weaken es ms l)

pub Usable-below : (b r : ℕ) (mmap : List MmapEntry) → MapBelow b mmap → Usable r mmap → r < b
Usable-below b r [] m u = absurd u
Usable-below b r (e ∷ es) (m, ms) (inl u) = omega arith
Usable-below b r (e ∷ es) (m, ms) (inr u) = Usable-below b r es ms u

pub align_up_page :
    (h : ℕ)
    → h + 0x1000 < w64
    → (h ≤ align_up h 0x1000) × (align_up h 0x1000 < h + 0x1000) × (align_up h 0x1000 % 0x1000 ≡ 0)
unfolding align_up
align_up_page h l = (ground arith, ground arith, ground arith)

-- A place behind every relocation is not taken.
pub find_relocation_behind :
    (list : List Relocation) (a size : ℕ)
    → AllEndBy a list
    → 0 < size
    → a + size < w64
    → find_relocation list a size ≡ none
unfolding find_relocation
find_relocation_behind [] a size h z w = refl
find_relocation_behind (i ∷ is) a size (e, h) z w =
    grind (arith, find_relocation_behind is a size h z w)

pub relocate_to_behind :
    (list : List Relocation) (buffer a size : ℕ)
    → AllEndBy a list
    → 0 < size
    → a + size < w64
    → relocate_to list buffer a size
      ≡ (list ++ (record { current = buffer; target = a; size = size } ∷ []), a)
unfolding relocate_to
relocate_to_behind list buffer a size h z w =
    let made =
      create_relocation_fresh list buffer a size (find_relocation_behind list a size h z w) in
    rw (relocate_to, made, made) refl

-- What a placement leaves: a relocation of the buffer to a page behind all others.
abbrev pub Placed : List Relocation → ℕ → ℕ → Option (List Relocation × ℕ) → ℕ → Type 0
Placed list buffer size res a =
    (res ≡ some (list ++ (record { current = buffer; target = a; size = size } ∷ []), a))
    × (a % 0x1000 ≡ 0)
    × (0 < a)
    × AllEndBy a list

-- The conditions under which there is a place: the search for it succeeds, and the map ends far
-- enough below the end of the address space.
abbrev pub Placeable : ℕ → List MmapEntry → List Relocation → ℕ → Type 0
Placeable uninit mmap list size =
    AllFit mmap
    × (Usable (highest_loop list 0) mmap ⊎ SomeAhead (highest_loop list 0) uninit mmap)
    × MapBelow (sub64 0 (0x2000 + size)) mmap
    × (0 < size)
    × (size < 2 ^ 63)
    × (0 < highest_loop list 0)

pub Placed-behind :
    (list : List Relocation) (buffer size x : ℕ)
    → AllEndBy x list
    → x < sub64 0 (0x2000 + size)
    → 0 < size
    → size < 2 ^ 63
    → 0 < highest_loop list 0
    → Placed list buffer size
        (some (relocate_to list buffer (align_up x 0x1000) size))
        (align_up x 0x1000)
Placed-behind list buffer size x ends low z s p =
    let page = align_up_page x (omega arith) in
    let behind = AllEndBy-weaken x (align_up x 0x1000) list page.0 ends in
    (
      ap some (relocate_to_behind list buffer (align_up x 0x1000) size behind z (omega arith)),
      page.2,
      omega (arith, highest_loop_least list 0 x ends (omega arith)),
      behind,
    )

module _ (fuel : ℕ) (uninit : ℕ → ℕ) (mmap : List MmapEntry) (r : Relocation) (rs : List Relocation)
    (x : ℕ) where
  pub relocate_ramdisk_step :
      (buffer size : ℕ)
      → highest_relocation_addr fuel uninit mmap (r ∷ rs) 0 ≡ some x
      → 0 < align_up x 0x1000
      → relocate_ramdisk fuel uninit mmap (r ∷ rs) buffer size
        ≡ some (relocate_to (r ∷ rs) buffer (align_up x 0x1000) size)
  unfolding relocate_ramdisk
  relocate_ramdisk_step buffer size e l =
      rw (relocate_ramdisk, e, gt→==_false (align_up x 0x1000) 0 l) refl

  pub prepare_multiboot_buffer_step :
      (buffer : ℕ)
      → 0 < buffer
      → highest_relocation_addr fuel uninit mmap (r ∷ rs) 0 ≡ some x
      → prepare_multiboot_buffer fuel uninit mmap (r ∷ rs) buffer
        ≡ some (relocate_to (r ∷ rs) buffer (align_up x 0x1000) multiboot_buff_size)
  unfolding prepare_multiboot_buffer
  prepare_multiboot_buffer_step buffer b e =
      rw (prepare_multiboot_buffer, e, gt→==_false buffer 0 b) refl
