-- ===== src/Fat/Directory.antt =====
-- Directories: `__fat32_open_dir_entry`, `__fat32_open_dir_entry_idx` and the walk along a path.
pub mod Find
pub mod Open
use light_loader.Common.{
  ℕ, zero, suc, ◌+◌, ◌-◌, ◌*◌, ◌/◌, ◌%◌, ◌==◌, ltb, leb, if◌then◌else◌, Bool, true, false, not,
  ◌&&◌, ◌||◌, Option, none, some, List, [], ◌∷◌, length, ℤ, pos, negsuc, add32, w32,
}
use light_loader.Common.Bytes.{Mem, load}
use light_loader.ByteDisk.{ByteDisk}
use light_loader.Fat.Results.{Result, ok, err, fault, out_of_fuel, M, ◌>>=◌, ◌>>◌, fail, pure}
use light_loader.Fat.{FatPrivate, cache_cluster_chain, load_clusters}
use light_loader.Fat.Names.{same_text, transform_fat_filename}

-- An entry is its 32 bytes.
abbrev pub dir_entry_size : ℕ
dir_entry_size = 32

unfoldable pub dir_attr : Mem → ℕ
dir_attr entry = entry 11

unfoldable pub filesize_bytes : Mem → ℕ
filesize_bytes entry = load 4 entry 28

unfoldable pub dir_entry_get_start_cluster : Mem → ℕ
dir_entry_get_start_cluster entry = load 2 entry 26 + load 2 entry 20 * 65536

-- `FAT_ATTR_DIRECTORY` is bit 4.
unfoldable pub is_directory : Mem → Bool
is_directory entry = dir_attr entry / 16 % 2 == 1

unfoldable pub entry_at : Mem → ℕ → Mem
entry_at entries i x = entries (i * dir_entry_size + x)

unfoldable pub same_name : Mem → Mem → Bool
same_name name entry = same_text 11 name entry

-- The loop over `n` entries from `i` on: the error, and the index of the entry that is copied out.
unfoldable pub find_name : ℕ → Mem → Mem → ℕ → ℤ → ℤ × Option ℕ
find_name zero name entries i error = (error, none)
find_name (suc n) name entries i error =
    let entry = entry_at entries i in
    if entry 0 == b' '
    then find_name n name entries (i + 1) error
    else if entry 0 == 0
    then (negsuc 2, none)
    else if dir_attr entry == 0x0f
    then find_name n name entries (i + 1) (negsuc 3)
    else if same_name name entry
    then (pos 0, some i)
    else find_name n name entries (i + 1) error

unfoldable pub find_idx : ℕ → ℕ → Mem → ℕ → ℤ → ℤ × Option ℕ
find_idx zero idx entries i error = (error, none)
find_idx (suc n) idx entries i error =
    let entry = entry_at entries i in
    if entry 0 == b' '
    then find_idx n idx entries (i + 1) error
    else if entry 0 == 0
    then (negsuc 2, none)
    else if dir_attr entry == 0x0f
    then find_idx n idx entries (i + 1) (negsuc 3)
    else if idx == 0
    then (pos 0, some i)
    else find_idx n (idx - 1) entries (i + 1) error

-- What the callers see: an error, or `*out` and `*offset` where they are written. With the error 0
-- and no entry, `*out` and `*offset` keep what they held.
unfoldable pub finish : Mem → ℤ × Option ℕ → Result (Option (Mem × ℕ))
finish entries (pos zero, none) = ok none
finish entries (pos zero, some i) = ok (some (entry_at entries i, i * dir_entry_size % w32))
finish entries (pos (suc n), found) = err (pos (suc n))
finish entries (negsuc n, found) = err (negsuc n)

module _ (io : ByteDisk) (p : FatPrivate) where
  -- The directory's clusters and their bytes. `fresh` is what `heap_allocate` returns.
  unfoldable pub load_directory : ℕ → Mem → Mem → M io.Dev (ℕ × Mem)
  load_directory fuel fresh current = if not (is_directory current) then fail (negsuc 1) else do
    chain ← cache_cluster_chain io p fuel (dir_entry_get_start_cluster current)
    entries ← load_clusters io p fresh chain 0 (length chain * p.cluster_size)
    pure (length chain * p.cluster_size / dir_entry_size, entries)

  -- `out` and `rel_path` are not NULL.
  unfoldable pub open_dir_entry : ℕ → Mem → Mem → Mem → M io.Dev (Option (Mem × ℕ))
  open_dir_entry fuel fresh current rel_path = do
    (count, entries) ← load_directory fuel fresh current
    elim (transform_fat_filename fuel rel_path) [
      | none ↦ λ d. (d, out_of_fuel)
      | some (name, found_ext) ↦ λ d. (d, finish entries (find_name count name entries 0 (pos 0)))
    ]

  unfoldable pub open_dir_entry_idx : ℕ → Mem → Mem → ℕ → M io.Dev (Option (Mem × ℕ))
  open_dir_entry_idx fuel fresh current idx = do
    (count, entries) ← load_directory fuel fresh current
    λ d. (d, finish entries (find_idx count idx entries 0 (pos 0)))
