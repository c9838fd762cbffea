-- ===== src/Boot/Examples.antt =====
-- A memory map with a seam, a kernel header and a configuration file.
use light_loader.Common.{
  true, ℕ, zero, suc, ◌+◌, ◌*◌, ◌≤◌, ◌<◌, ◌≡◌, ◌≢◌, ◌↔◌, inl, inr, refl, ◌==◌, if◌then◌else◌,
  Option, some, List, [], ◌∷◌, ◌++◌, add64, arith,
}
use light_loader.Common.Bytes.{Mem, load, SameOn}
use light_loader.Fat.Write.{align_up32}
use light_loader.Config.Nodes.{
  ConfigNode, Nodes, string_node, group_node, nil, cons, group_value, find, name_matches, key,
}
use light_loader.Memory.{MmapEntry}
use light_loader.Reloc.{Relocation, highest_loop}
use light_loader.Boot.{
  MultibootEntry, get_multiboot_memorymap, memorymap_loop, grow_entry, converted,
  get_multiboot_mmap_type, collapse_mmap, find_mb_header, get_multiboot_header_tag,
  place_boot_parts, TagBuffer, add_multiboot_tag,
}
use light_loader.Boot.Merge.{MultibootCovered, Covered, get_multiboot_memorymap-Covered}
use light_loader.Boot.Collapse.{Alternates, collapse_mmap-Alternates}
use light_loader.Boot.Place.{InOrder, place_boot_parts-InOrder}
use light_loader.Boot.Tags.{TagsAt, next_tag, add_multiboot_tag-TagsAt}
use light_loader.Boot.Header.{
  FirstHeader, find_mb_header_iff, first_tag, get_multiboot_header_tag-first_tag,
}
use light_loader.Boot.Options.{
  light_boot_kernel_opts_len, boot_add_kernel_opt, HoldsText, option_text,
  boot_add_kernel_opt-HoldsText,
}
use light_loader.Boot.Options.Config.{
  multiboot2, same_string, method_of, str_value, boot_config_from_file, duplicate, cut_at_nul,
  or_default, default_kernel_path, default_ramdisk_path, kernel_image_name, ramdisk_image_name,
  kernel_cmd_name, protocol_name, boot_name, multiboot2_text,
}
use light_loader.Boot.Options.Lookup.{OptionsHold, string_at, boot_config_from_file-group}

abbrev seamless : List MmapEntry
seamless =
    record { type = 1; paddr = 0x1000; size = 0x1000 }
    ∷ record { type = 1; paddr = 0x2000; size = 0x3000 }
    ∷ record { type = 3; paddr = 0x5000; size = 0x1000 }
    ∷ []

get_multiboot_memorymap-Covered_example :
    MultibootCovered 0x2800 1 (get_multiboot_memorymap seamless).0 ↔ Covered 0x2800 1 seamless
get_multiboot_memorymap-Covered_example = get_multiboot_memorymap-Covered 0x2800 1 seamless (
  omega arith,
  (λ e. refl),
  (omega arith, (λ e. absurd (omega (arith, e))), (omega arith, tt, tt)),
)

-- With a gap between two entries of the same type, the merged entry ends before the second one does
-- and takes in the gap.
gap_test :
    get_multiboot_memorymap (
      record { type = 1; paddr = 0; size = 0x9f000 }
      ∷ record { type = 1; paddr = 0x100000; size = 0x100000 }
      ∷ [])
    ≡ (
      record { addr = 0; len = 0x19f000; mb_type = 1 } ∷ [],
      record { type = 1; paddr = 0; size = 0x19f000 }
          ∷ record { type = 1; paddr = 0x100000; size = 0x100000 }
          ∷ [],
    )
unfolding get_multiboot_memorymap memorymap_loop grow_entry converted get_multiboot_mmap_type
gap_test = refl

abbrev multiboot_map : List MultibootEntry
multiboot_map =
    record { addr = 0x1000; len = 0x1000; mb_type = 1 }
    ∷ record { addr = 0x2000; len = 0x1000; mb_type = 1 }
    ∷ record { addr = 0x8000; len = 0x1000; mb_type = 2 }
    ∷ []

collapse_mmap-Alternates_example :
    Alternates (collapse_mmap multiboot_map)
    × ((a t : ℕ)
        → MultibootCovered a t (collapse_mmap multiboot_map) ↔ MultibootCovered a t multiboot_map)
collapse_mmap-Alternates_example = collapse_mmap-Alternates multiboot_map (
  omega arith,
  (λ e. refl),
  (omega arith, (λ e. absurd (omega (arith, e))), (omega arith, tt, tt)),
)

abbrev kernel : Relocation
kernel = record { current = 0x9000; target = 0x100000; size = 0x2345 }

abbrev ram : List MmapEntry
ram = record { type = 1; paddr = 0x100000; size = 0x1000000 } ∷ []

place_boot_parts-InOrder_example :
    InOrder
      (kernel ∷ [])
      0x5000
      0x7000
      0x800
      (place_boot_parts 2 (λ k. 0) ram (kernel ∷ []) 0x5000 0x7000 0x800)
unfolding highest_loop
place_boot_parts-InOrder_example =
    place_boot_parts-InOrder 0 (λ k. 0) ram kernel [] 0x5000 0x7000 0x800 (omega arith)
      (omega arith, omega arith, tt) (omega arith, tt) (omega arith) (omega arith) (omega arith)
      (λ x lo hi. inl (refl, omega arith, omega arith))

abbrev fresh_tags : TagBuffer
fresh_tags = record { memory = λ x. 7; multiboot_buffer = 0x5000; current_multiboot_tag = 8 }

-- The caller has written 9 behind the tag's first 8 bytes.
abbrev filled : Mem
filled = λ x. if x == 0x5010 then 9 else (add_multiboot_tag fresh_tags 2 23).0.memory x

filled_same : (x : ℕ) → x < 0x5010 → filled x ≡ (add_multiboot_tag fresh_tags 2 23).0.memory x
filled_same x h = ground arith

tag_place : (add_multiboot_tag fresh_tags 2 23).1 ≡ 0x5008
unfolding add_multiboot_tag
tag_place = refl

add_multiboot_tag-TagsAt_example :
    (let (new, tag) = add_multiboot_tag fresh_tags 2 23 in
      (tag ≡ next_tag fresh_tags)
      × TagsAt filled 0x5008 ([] ++ ((2, 23) ∷ [])) (next_tag new)
      × SameOn fresh_tags.memory new.memory 0 tag
      × SameOn (λ x. 0) new.memory (tag + 8) (tag + 23))
add_multiboot_tag-TagsAt_example =
    add_multiboot_tag-TagsAt fresh_tags 2 23 0x5008 [] filled (omega arith) (omega arith)
      (omega arith) (omega arith) refl (λ x lo hi. filled_same x (omega (arith, tag_place)))

-- A kernel at 0x1000 whose header stands at its second place, with one tag behind it.
abbrev kernel_file : Mem
kernel_file = λ a.
    if a == 0x1008
    then 0xd6
    else if a == 0x1009
    then 0x50
    else if a == 0x100a
    then 0x52
    else if a == 0x100b
    then 0xe8
    else if a == 0x1010
    then 0x20
    else if a == 0x1014
    then 0x0a
    else if a == 0x1015
    then 0xaf
    else if a == 0x1016
    then 0xad
    else if a == 0x1017
    then 0x17
    else if a == 0x1018
    then 5
    else if a == 0x101c
    then 8
    else 0

find_mb_header_iff_example :
    (find_mb_header kernel_file 0x1000 ≡ some 0x1008) ↔ FirstHeader 4096 kernel_file 0x1000 0 0x1008
find_mb_header_iff_example = find_mb_header_iff kernel_file 0x1000 0x1008

-- The header is there.
header_test : FirstHeader 4096 kernel_file 0x1000 0 0x1008
unfolding load
header_test = (1, omega arith, refl, refl, refl, before)
  where
    before : (j : ℕ) → j < 1 → load 4 kernel_file (add64 0x1000 (0 + 8 * j)) ≢ 0xe85250d6
    before zero l e = omega (arith, e)
    before (suc j) l e = omega arith

get_multiboot_header_tag-first_tag_example :
    get_multiboot_header_tag 2 kernel_file 0x1008 5
    ≡ some (first_tag 5 (add64 0x1008 16) ((5, 8) ∷ []))
unfolding load align_up32
get_multiboot_header_tag-first_tag_example =
    get_multiboot_header_tag-first_tag 2 kernel_file 0x1008 5 ((5, 8) ∷ []) (omega arith)
      (omega arith, omega arith, refl, refl, inr refl)

abbrev options : Mem
options = λ i. if i == 0 then b'q' else 0

boot_add_kernel_opt-HoldsText_example :
    (new : Mem) × (boot_add_kernel_opt 2 (λ i. 0) (some options) (b'a' ∷ []) (b'1' ∷ []) ≡ some new)
    × HoldsText new ((b'q' ∷ []) ++ option_text (b'a' ∷ []) (b'1' ∷ []))
    × ((i : ℕ) → light_boot_kernel_opts_len ≤ i → new i ≡ options i)
boot_add_kernel_opt-HoldsText_example =
    boot_add_kernel_opt-HoldsText 2 (λ i. 0) options (b'q' ∷ []) (b'a' ∷ []) (b'1' ∷ [])
      (omega arith) ((refl, omega arith, tt), λ i l h. ground arith) (omega arith, tt)
      (omega arith, tt) (omega arith)

abbrev boot_entries : Nodes
boot_entries =
    cons (string_node protocol_name multiboot2_text)
      (cons (string_node kernel_cmd_name (b'q' ∷ [])) nil)

abbrev config : ConfigNode
config = group_node [] (cons (group_node boot_name boot_entries) nil)

boot_config_from_file-group_example :
    (opts : Option Mem) × (boot_config_from_file true (λ i. 0) config
      ≡ some (record {
        flags = 4;
        method = multiboot2;
        kernel_image =
            or_default (duplicate (string_at kernel_image_name boot_entries)) default_kernel_path;
        ramdisk_image =
            or_default (duplicate (string_at ramdisk_image_name boot_entries)) default_ramdisk_path;
        kernel_opts = opts;
      }))
    × OptionsHold (λ i. 0) (duplicate (string_at kernel_cmd_name boot_entries)) opts
unfolding find name_matches key group_value method_of same_string str_value duplicate cut_at_nul
boot_config_from_file-group_example =
    boot_config_from_file-group true (λ i. 0) config boot_name
      (string_node protocol_name multiboot2_text)
      (cons (string_node kernel_cmd_name (b'q' ∷ [])) nil) multiboot2 refl refl (omega arith)
