-- ===== src/Boot.antt =====
-- Handing a kernel over with the multiboot2 protocol, from common/boot/boot.c: the kernel's header,
-- the memory map, the relocations behind the kernel, and the tags of the boot information.
pub mod Merge
pub mod Collapse
pub mod Behind
pub mod Place
pub mod Tags
pub mod Header
pub mod Options
mod Examples
use light_loader.Common.{
  ℕ, zero, suc, ◌+◌, ◌*◌, ◌/◌, ◌%◌, ◌^◌, ◌==◌, ltb, leb, if◌then◌else◌, Bool, true, false, not,
  ◌&&◌, ◌||◌, Option, none, some, List, [], ◌∷◌, ◌++◌, map, w32, w64, add64, add32, sub64,
}
use light_loader.Common.Bytes.{Mem, load, store}
use light_loader.Heap.{align_up}
use light_loader.Fat.Write.{align_up32}
use light_loader.Memory.{MmapEntry, memmap_usable, memset}
use light_loader.Reloc.{Relocation, create_relocation, highest_relocation_addr}

-- `find_mb_header`, with `n` places left, the next of them at `i`; `none` is the null pointer.
unfoldable pub search_header : ℕ → Mem → ℕ → ℕ → Option ℕ
search_header zero m buffer i = none
search_header (suc n) m buffer i =
    let header = add64 buffer i in
    let next = search_header n m buffer (i + 8) in
    let sum =
      add32 (add32 (add32 (load 4 m header) (load 4 m (header + 8))) (load 4 m (header + 4)))
        (load 4 m (header + 12)) in
    if not (load 4 m header == 0xe85250d6)
    then next
    else if not (sum == 0)
    then none
    else some header

unfoldable pub find_mb_header : Mem → ℕ → Option ℕ
find_mb_header m buffer = search_header 4096 m buffer 0

-- `get_multiboot_header_tag`: the outer `none` is out of fuel, the inner one the null pointer. The
-- limit is the end of the header.
unfoldable pub header_tag_loop : ℕ → Mem → ℕ → ℕ → ℕ → Option (Option ℕ)
header_tag_loop zero m limit type tag = none
header_tag_loop (suc fuel) m limit type tag =
    let rest = header_tag_loop fuel m limit type (add64 tag (align_up32 (load 4 m (tag + 4)) 8)) in
    if not (ltb tag limit && not (load 2 m tag == 0))
    then some none
    else if load 2 m tag == type
    then some (some tag)
    else rest

unfoldable pub get_multiboot_header_tag : ℕ → Mem → ℕ → ℕ → Option (Option ℕ)
get_multiboot_header_tag fuel m header type =
    header_tag_loop fuel m (add64 header (load 4 m (header + 8))) type (add64 header 16)

-- The types of a memory map, here and in multiboot2.
abbrev pub memmap_acpi_reclaimable : ℕ
memmap_acpi_reclaimable = 3

abbrev pub memmap_acpi_nvs : ℕ
memmap_acpi_nvs = 4

abbrev pub memmap_bad_memory : ℕ
memmap_bad_memory = 5

abbrev pub memmap_bootloader_reclaimable : ℕ
memmap_bootloader_reclaimable = 0x1000

abbrev pub memmap_efi_reclaimable : ℕ
memmap_efi_reclaimable = 0x2000

unfoldable pub get_multiboot_mmap_type : ℕ → ℕ
get_multiboot_mmap_type type =
    if type == memmap_efi_reclaimable
      || type == memmap_bootloader_reclaimable
      || type == memmap_usable
    then 1
    else if type == memmap_bad_memory
    then 5
    else if type == memmap_acpi_reclaimable
    then 3
    else if type == memmap_acpi_nvs
    then 4
    else 2

-- `multiboot_memory_map_t`; its `zero` is always 0.
pub record MultibootEntry : Type 0 where
  pub addr : ℕ
  pub len : ℕ
  pub mb_type : ℕ

-- `current->size += check->size`, in the loader's own memory map.
unfoldable pub grow_entry : MmapEntry → MmapEntry → MmapEntry
grow_entry current check = record current { size = add64 current.size check.size }

-- What one entry of the loader's map becomes.
unfoldable pub converted : MmapEntry → MultibootEntry
converted e = record { addr = e.paddr; len = e.size; mb_type = get_multiboot_mmap_type e.type }

-- The two loops of `get_multiboot_memorymap` at the entry `current`, with the entries behind it. The
-- result is the new map, and what the loops leave of `current` and of the entries behind it.
unfoldable pub memorymap_loop :
    MmapEntry → List MmapEntry → List MultibootEntry × MmapEntry × List MmapEntry
memorymap_loop current [] =
    ((if current.type == 0 then [] else converted current ∷ []), current, [])
memorymap_loop current (check ∷ es) =
    let grown = memorymap_loop (grow_entry current check) es in
    let next = memorymap_loop check es in
    if current.type == 0
    then (next.0, current, next.1 ∷ next.2)
    else if not (current.type == check.type)
    then (converted current ∷ next.0, current, next.1 ∷ next.2)
    else (grown.0, grown.1, check ∷ grown.2)

-- With the loader's map behind the call; the allocation is taken to succeed, as the source does.
unfoldable pub get_multiboot_memorymap : List MmapEntry → List MultibootEntry × List MmapEntry
get_multiboot_memorymap [] = ([], [])
get_multiboot_memorymap (e ∷ es) = let made = memorymap_loop e es in (made.0, made.1 ∷ made.2)

-- The two loops of `collapse_mmap` at the entry `current`, with the entries behind it.
unfoldable pub collapse_loop : MultibootEntry → List MultibootEntry → List MultibootEntry
collapse_loop current [] = current ∷ []
collapse_loop current (next ∷ es) =
    let grown = collapse_loop (record current { len = add64 current.len next.len }) es in
    let rest = collapse_loop next es in
    if not (current.mb_type == next.mb_type) then current ∷ rest else grown

-- An empty list stands for the null pointer that the source returns for it. The allocation is taken
-- to succeed.
unfoldable pub collapse_mmap : List MultibootEntry → List MultibootEntry
collapse_mmap [] = []
collapse_mmap (e ∷ es) = collapse_loop e es

-- Behind the search for the highest address: a relocation of the buffer to it, and the result of
-- the caller, 0 for an error.
unfoldable pub relocate_to : List Relocation → ℕ → ℕ → ℕ → List Relocation × ℕ
relocate_to list buffer target size =
    let made = create_relocation list buffer target size in
    elim made.1 [ none ↦ (made.0, 0) | some _ ↦ (made.0, target) ]

-- `none` is out of fuel, with `uninit` as `highest_relocation_addr` takes it.
unfoldable pub relocate_ramdisk :
    ℕ → (ℕ → ℕ) → List MmapEntry → List Relocation → ℕ → ℕ → Option (List Relocation × ℕ)
relocate_ramdisk fuel uninit mmap [] buffer size = some ([], 0)
relocate_ramdisk fuel uninit mmap (r ∷ rs) buffer size =
    elim (highest_relocation_addr fuel uninit mmap (r ∷ rs) 0) [
      | none ↦ none
      | some h ↦
          let highest = align_up h 0x1000 in
          let placed = relocate_to (r ∷ rs) buffer highest size in
          if highest == 0 then some (r ∷ rs, 0) else some placed
    ]

abbrev pub multiboot_buff_size : ℕ
multiboot_buff_size = 0x4000

-- Behind the allocation of the buffer, which is given: 0 if it failed.
unfoldable pub prepare_multiboot_buffer :
    ℕ → (ℕ → ℕ) → List MmapEntry → List Relocation → ℕ → Option (List Relocation × ℕ)
prepare_multiboot_buffer fuel uninit mmap [] buffer = some ([], 0)
prepare_multiboot_buffer fuel uninit mmap (r ∷ rs) buffer =
    elim (highest_relocation_addr fuel uninit mmap (r ∷ rs) 0) [
      | none ↦ (if buffer == 0 then some (r ∷ rs, 0) else none)
      | some h ↦
          let placed = relocate_to (r ∷ rs) buffer (align_up h 0x1000) multiboot_buff_size in
          if buffer == 0 then some (r ∷ rs, 0) else some placed
    ]

-- The two placements as `boot_context_configuration` makes them, with the addresses of the boot
-- information and of the ramdisk. Where one fails its address is 0, and the loader stops.
unfoldable pub place_boot_parts :
    ℕ → (ℕ → ℕ) → List MmapEntry → List Relocation → ℕ → ℕ → ℕ → Option (List Relocation × ℕ × ℕ)
place_boot_parts fuel uninit mmap list multiboot_buffer ramdisk_buffer ramdisk_size =
    elim (prepare_multiboot_buffer fuel uninit mmap list multiboot_buffer) [
      | none ↦ none
      | some p ↦
          if p.1 == 0
          then some (p.0, 0, 0)
          else elim (relocate_ramdisk fuel uninit mmap p.0 ramdisk_buffer ramdisk_size) [
            | none ↦ none
            | some q ↦ some (q.0, p.1, q.1)
          ]
    ]

-- The memory with `multiboot_buffer` and `current_multiboot_tag`.
pub record TagBuffer : Type 0 where
  pub memory : Mem
  pub multiboot_buffer : ℕ
  pub current_multiboot_tag : ℕ

-- With the address of the new tag.
unfoldable pub add_multiboot_tag : TagBuffer → ℕ → ℕ → TagBuffer × ℕ
add_multiboot_tag b type size =
    let new_tag = add64 b.multiboot_buffer b.current_multiboot_tag in
    (
      record b {
        memory = store 4 (store 4 (memset b.memory new_tag 0 size) new_tag type) (new_tag + 4) size;
        current_multiboot_tag = add64 b.current_multiboot_tag (align_up32 size 8);
      },
      new_tag,
    )

-- The loop of `get_first_bit_offset`, with `n` positions left.
unfoldable pub bit_loop : ℕ → ℕ → ℕ → ℕ
bit_loop zero dword pos = pos
bit_loop (suc n) dword pos =
    let next = bit_loop n dword (pos + 1) in if not (dword / 2 ^ pos % 2 == 0) then pos else next

unfoldable pub get_first_bit_offset : ℕ → ℕ
get_first_bit_offset dword = bit_loop 31 dword 0
