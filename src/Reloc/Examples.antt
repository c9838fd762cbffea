-- ===== src/Reloc/Examples.antt =====
-- A file at 0x1000 with two segments to load, the magic number at 0, and a memory map with usable
-- memory behind a hole.
use light_loader.Common.{
  ℕ, ◌≡◌, refl, inl, inr, ◌==◌, if◌then◌else◌, false, some, List, [], ◌∷◌, pos, arith,
}
use light_loader.Common.Bytes.{Mem, load}
use light_loader.Memory.{MmapEntry, memcmp}
use light_loader.Memory.Map.{Usable}
use light_loader.Reloc.{
  Relocation, Loaded, phdr_at, ehdr_at, load_relocatable_elf, highest_loop, highest_relocation_addr,
  relocation_does_overlap, find_relocation,
}
use light_loader.Reloc.Highest.{AllEndBy, highest_relocation_addr-Clear}
use light_loader.Reloc.Segments.{segments, segments_loaded, load_relocatable_elf-segments}

abbrev file : Mem
file = λ a.
    if a == 0
    then 0x7f
    else if a == 1
    then b'E'
    else if a == 2
    then b'L'
    else if a == 3
    then b'F'
    else if a == 0x1000
    then 0x7f
    else if a == 0x1001
    then b'E'
    else if a == 0x1002
    then b'L'
    else if a == 0x1003
    then b'F'
    else if a == 0x1012
    then 62
    else if a == 0x1019
    then 0x21
    else if a == 0x1020
    then 64
    else if a == 0x1036
    then 56
    else if a == 0x1038
    then 2
    else segment a
  where
    segment : Mem
    segment = λ a.
        if a == 0x1040
        then 1
        else if a == 0x1049
        then 2
        else if a == 0x1051
        then 0x20
        else if a == 0x1059
        then 0x40
        else if a == 0x1069
        then 3
        else if a == 0x1078
        then 1
        else if a == 0x1081
        then 5
        else if a == 0x1089
        then 0x30
        else if a == 0x1091
        then 0x50
        else if a == 0x10a1
        then 1
        else 0

abbrev empty : Loaded
empty = record { entry = 0; count = 0; relocations = [] }

load_relocatable_elf-segments_example : load_relocatable_elf file 0 0x1000 empty ≡ (
  segments_loaded [] 0x1000
      (ehdr_at file 0x1000).e_entry
      (segments (ehdr_at file 0x1000).e_phnum file 0x1000 (ehdr_at file 0x1000) 0),
  pos 0,
)
unfolding memcmp ehdr_at phdr_at load find_relocation
load_relocatable_elf-segments_example =
    load_relocatable_elf-segments file 0 0x1000 empty refl refl (refl, (refl, tt))
      ((λ h. (refl, tt)), ((λ h. tt), tt))

abbrev parts : List Relocation
parts =
    record { current = 0x3000; target = 0x4000; size = 0x300 }
    ∷ record { current = 0x6000; target = 0x5000; size = 0x100 }
    ∷ []

-- The parts end at 0x5100, in a hole between two usable regions.
abbrev holed : List MmapEntry
holed =
    record { type = 1; paddr = 0x1000; size = 0x4000 }
    ∷ record { type = 2; paddr = 0x5000; size = 0x1000 }
    ∷ record { type = 1; paddr = 0x8000; size = 0x8000 }
    ∷ []

highest_relocation_addr-Clear_example :
    (r : ℕ) × (highest_relocation_addr 5 (λ k. 0) holed parts 0 ≡ some r)
    × AllEndBy r parts
    × Usable r holed
unfolding highest_loop
highest_relocation_addr-Clear_example =
    highest_relocation_addr-Clear 3 (λ k. 0) holed parts
      (omega arith, omega arith, (omega arith, omega arith, (omega arith, omega arith, tt)))
      (inr (inr (inr (inl (refl, omega arith, omega arith, omega arith, omega arith)))))

-- At address 0x4400 nothing overlaps, and the relocation that ends there counts at 0x4300.
overlap_test : relocation_does_overlap parts 0x4400 0x100 ≡ false
unfolding relocation_does_overlap
overlap_test = refl
