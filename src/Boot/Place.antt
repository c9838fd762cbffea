-- ===== src/Boot/Place.antt =====
-- The places of the boot information and of the ramdisk, behind the kernel.
use light_loader.Common.{
  ℕ, suc, ◌+◌, ◌%◌, ◌^◌, ◌≤◌, ◌<◌, ◌≡◌, refl, sym, ◌∙◌, gt→==_false, Option, some, List, [], ◌∷◌,
  ◌++◌, add64, sub64, arith,
}
use mathlib.Core.Path.{subst}
use light_loader.Heap.{align_up}
use light_loader.Memory.{MmapEntry}
use light_loader.Memory.Map.{Usable}
use light_loader.Reloc.{Relocation, highest_loop}
use light_loader.Reloc.Highest.{
  AllEndBy, AllEndBy-weaken, highest_loop_least, highest_loop-AllEndBy,
  highest_relocation_addr-Clear, highest_relocation_addr-Usable,
}
use light_loader.Reloc.Nearest.{AllFit}
use light_loader.Boot.{relocate_ramdisk, multiboot_buff_size, place_boot_parts}
use light_loader.Boot.Behind.{
  MapBelow, Usable-below, align_up_page, Placed, Placeable, Placed-behind, relocate_ramdisk_step,
  prepare_multiboot_buffer_step,
}

-- The ramdisk is placed, behind a hole in the usable memory too.
relocate_ramdisk-Placed :
    (n : ℕ) (uninit : ℕ → ℕ) (mmap : List MmapEntry) (r : Relocation) (rs : List Relocation)
    (buffer size : ℕ)
    → Placeable (uninit (suc n)) mmap (r ∷ rs) size
    → (a : ℕ) × Placed
        (r ∷ rs)
        buffer
        size
        (relocate_ramdisk (suc (suc n)) uninit mmap (r ∷ rs) buffer size)
        a
relocate_ramdisk-Placed n uninit mmap r rs buffer size (f, h, m, z, s, p) =
    let (x, e, ends, u) = highest_relocation_addr-Clear n uninit mmap (r ∷ rs) f h in
    let placed =
      Placed-behind (r ∷ rs) buffer size x ends (Usable-below (sub64 0 (0x2000 + size)) x mmap m u)
        z s p in
    (
      align_up x 0x1000,
      subst (λ o. Placed (r ∷ rs) buffer size o (align_up x 0x1000))
          (sym (relocate_ramdisk_step (suc (suc n)) uninit mmap r rs x buffer size e placed.2))
          placed,
    )

AllEndBy-append :
    (b : ℕ) (xs ys : List Relocation) → AllEndBy b xs → AllEndBy b ys → AllEndBy b (xs ++ ys)
AllEndBy-append b [] ys h g = g
AllEndBy-append b (x ∷ xs) ys (e, h) g = (e, AllEndBy-append b xs ys h g)

AllEndBy-last :
    (b : ℕ) (xs : List Relocation) (y : Relocation)
    → AllEndBy b (xs ++ (y ∷ []))
    → AllEndBy b xs × (add64 y.target y.size ≤ b)
AllEndBy-last b [] y h = (tt, h.0)
AllEndBy-last b (x ∷ xs) y (e, h) = let rest = AllEndBy-last b xs y h in ((e, rest.0), rest.1)

-- Every address from `from` up to, and not including, `to` is usable.
abbrev pub UsableOn : ℕ → ℕ → List MmapEntry → Type 0
UsableOn from to mmap = (x : ℕ) → from ≤ x → x < to → Usable x mmap

-- The result of the two placements: the boot information at a page behind the kernel, and the
-- ramdisk at a page behind both.
abbrev pub InOrder : List Relocation → ℕ → ℕ → ℕ → Option (List Relocation × ℕ × ℕ) → Type 0
InOrder list multiboot_buffer ramdisk_buffer ramdisk_size res =
    (info : ℕ) × (ramdisk : ℕ) × (res
      ≡ some (
        (list
              ++ (record { current = multiboot_buffer; target = info; size = multiboot_buff_size }
                  ∷ []))
            ++ (record { current = ramdisk_buffer; target = ramdisk; size = ramdisk_size } ∷ []),
        info,
        ramdisk,
      ))
    × (info % 0x1000 ≡ 0)
    × (ramdisk % 0x1000 ≡ 0)
    × AllEndBy info list
    × (info + multiboot_buff_size ≤ ramdisk)

-- For a boot information buffer that could be allocated (its address is not 0), a ramdisk of at least
-- a byte and less than 2 ^ 62 bytes, the relocations of a kernel that end above 0, and a memory map
-- whose entries have at least a byte each, do not wrap around and end below 2 ^ 64 - 0x6000 less the
-- size of the ramdisk, with usable memory from the highest end of the relocations on for 0x6000
-- bytes: with two rounds for each search, the boot information gets a page behind all of them and the
-- ramdisk a page behind the boot information, and both are added to the list.
pub place_boot_parts-InOrder :
    (n : ℕ) (uninit : ℕ → ℕ) (mmap : List MmapEntry) (r : Relocation) (rs : List Relocation)
    (multiboot_buffer ramdisk_buffer ramdisk_size : ℕ)
    → 0 < multiboot_buffer
    → AllFit mmap
    → MapBelow (sub64 0 (0x6000 + ramdisk_size)) mmap
    → 0 < ramdisk_size
    → ramdisk_size < 2 ^ 62
    → 0 < highest_loop (r ∷ rs) 0
    → UsableOn (highest_loop (r ∷ rs) 0) (highest_loop (r ∷ rs) 0 + 0x6000) mmap
    → InOrder (r ∷ rs) multiboot_buffer ramdisk_buffer ramdisk_size (
        place_boot_parts
          (suc (suc n))
          uninit
          mmap
          (r ∷ rs)
          multiboot_buffer
          ramdisk_buffer
          ramdisk_size)
unfolding place_boot_parts align_up
place_boot_parts-InOrder n uninit mmap r rs mb rb size b f m z s p u =
    let end_ = highest_loop (r ∷ rs) 0 in
    let info = align_up end_ 0x1000 in
    let added : Relocation = record { current = mb; target = info; size = multiboot_buff_size } in
    let end' = highest_loop (r ∷ (rs ++ (added ∷ []))) 0 in
    let ramdisk = align_up end' 0x1000 in
    let u1 = u end_ (omega arith) (omega arith) in
    let low = Usable-below (sub64 0 (0x6000 + size)) end_ mmap m u1 in
    let page = align_up_page end_ (omega arith) in
    let first =
      Placed-behind (r ∷ rs) mb multiboot_buff_size end_ (highest_loop-AllEndBy (r ∷ rs) 0)
        (omega arith) (omega arith) (omega arith) p in
    let behind =
      AllEndBy-last end' (r ∷ rs) added (highest_loop-AllEndBy (r ∷ (rs ++ (added ∷ []))) 0) in
    let infos =
      AllEndBy-append (info + multiboot_buff_size) (r ∷ rs) (added ∷ [])
        (AllEndBy-weaken info (info + multiboot_buff_size) (r ∷ rs) (omega arith) first.3)
        (omega arith, tt) in
    let top =
      highest_loop_least (r ∷ (rs ++ (added ∷ []))) 0 (info + multiboot_buff_size) infos
        (omega arith) in
    let u2 = u end' (omega (arith, behind.1)) (omega (arith, top)) in
    let low' = Usable-below (sub64 0 (0x6000 + size)) end' mmap m u2 in
    let page' = align_up_page end' (omega arith) in
    let second =
      Placed-behind (r ∷ (rs ++ (added ∷ []))) rb size end'
        (highest_loop-AllEndBy (r ∷ (rs ++ (added ∷ []))) 0) (omega arith) z (omega arith)
        (omega (arith, behind.1)) in
    let e1 =
      prepare_multiboot_buffer_step (suc (suc n)) uninit mmap r rs end_ mb b
        (highest_relocation_addr-Usable n uninit mmap (r ∷ rs) u1)
      ∙ first.0 in
    let e2 =
      relocate_ramdisk_step (suc (suc n)) uninit mmap r (rs ++ (added ∷ [])) end' rb size
        (highest_relocation_addr-Usable n uninit mmap (r ∷ (rs ++ (added ∷ []))) u2) second.2
      ∙ second.0 in
    (
      info,
      ramdisk,
      rw (place_boot_parts, e1, gt→==_false info 0 first.2, e2) refl,
      page.2,
      page'.2,
      first.3,
      omega (arith, behind.1, page'.0),
    )
