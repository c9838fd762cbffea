-- ===== src/Fat/Create.antt =====
-- Creating files and directories: `__fat32_dir_append_entry` and `fat32_create_path`.
pub mod Append
pub mod Entry
mod Examples
use light_loader.Common.{
  ℕ, zero, suc, ◌+◌, ◌-◌, ◌*◌, ◌/◌, ◌%◌, ◌==◌, leb, ltb, if◌then◌else◌, Bool, true, false, not,
  ◌&&◌, ◌||◌, Option, none, some, negsuc, ℤ,
}
use light_loader.Common.Bytes.{Mem, store, write}
use light_loader.ByteDisk.{ByteDisk}
use light_loader.Disk.{copy_range}
use light_loader.Memory.{strlen}
use light_loader.Fat.Results.{
  Result, ok, err, fault, out_of_fuel, M, ◌>>=◌, ◌>>◌, fail, pure, or_fail,
}
use light_loader.Fat.{
  FatPrivate, fat32_cluster_eof, set_cluster, read_cluster, write_cluster, find_free_cluster,
  find_end_cluster,
}
use light_loader.Fat.Names.{transform_loop}
use light_loader.Fat.Directory.{
  dir_entry_size, is_directory, dir_entry_get_start_cluster, open_dir_entry,
}
use light_loader.Fat.Open.{component, fat32_max_filename_length}

-- The first of `n` entries from `i` on whose name begins with 0, or the end.
unfoldable pub free_entry : ℕ → Mem → ℕ → ℕ
free_entry zero entries i = i
free_entry (suc n) entries i =
    let rest = free_entry n entries (i + 1) in if entries (i * dir_entry_size) == 0 then i else rest

-- The two halves of the first cluster's number.
unfoldable pub set_first_cluster : Mem → ℕ → Mem
set_first_cluster entry cluster = store 2 (store 2 entry 26 cluster) 20 (cluster / 65536)

-- The entries "." and ".." of a new directory.
unfoldable pub dot_entry : ℕ → Mem
dot_entry first =
    set_first_cluster
      (λ x. if x == 0 then b'.' else if ltb x 11 then 0x20 else if x == 11 then 0x10 else 0) first

unfoldable pub is_cluster_byte : ℕ → Bool
is_cluster_byte x = (leb 20 x && ltb x 22) || (leb 26 x && ltb x 28)

unfoldable pub dot_dot_entry : Mem → Mem
dot_dot_entry dir x =
    if ltb x 2
    then b'.'
    else if ltb x 11
    then 0x20
    else if x == 11
    then 0x10
    else if leb 28 x
    then 0
    else if is_cluster_byte x && (dir 0 == b'/')
    then 0
    else dir x

-- The first cluster of the new entry: zeros, behind the two entries of a directory.
unfoldable pub first_data : Mem → Mem → ℕ → Mem
first_data dir entry first x =
    if not (is_directory entry)
    then 0
    else if ltb x dir_entry_size
    then dot_entry first x
    else if ltb x (2 * dir_entry_size)
    then dot_dot_entry dir (x - dir_entry_size)
    else 0

-- Behind the look-up: a success that writes no entry leaves the current one.
abbrev pub or_create : {D : Type 0} → Mem → M D Mem → D × Result (Option (Mem × ℕ)) → D × Result Mem
or_create current create (d, ok none) = (d, ok current)
or_create current create (d, ok (some (entry, offset))) = (d, ok entry)
or_create current create (d, err e) = create d
or_create current create (d, fault) = (d, fault)
or_create current create (d, out_of_fuel) = (d, out_of_fuel)

module _ (io : ByteDisk) (p : FatPrivate) where
  -- The entry goes to the last cluster of the directory. Without room there the source stops in an
  -- endless loop.
  unfoldable pub place_entry : Mem → ℕ → Mem → M io.Dev Mem
  place_entry cluster_buffer last_cluster new_entry =
      let count = p.cluster_size / dir_entry_size in
      let slot = free_entry count cluster_buffer 0 in
      elim (ltb slot count) [
        | false ↦ λ d. (d, out_of_fuel)
        | true ↦ do
          write_cluster io p
              (copy_range cluster_buffer (slot * dir_entry_size) new_entry 0 dir_entry_size)
              last_cluster
          pure new_entry
      ]

  -- The new entry as it is written.
  unfoldable pub dir_append_entry : ℕ → Mem → Mem → Mem → M io.Dev Mem
  dir_append_entry fuel fresh dir entry = if not (is_directory dir) then fail (negsuc 0) else do
    last_cluster ← or_fail (negsuc 1) (find_end_cluster io p fuel (dir_entry_get_start_cluster dir))
    cluster_buffer ← read_cluster io p fresh last_cluster
    first_cluster ← find_free_cluster io p
    write_cluster io p (first_data dir entry first_cluster) first_cluster
    set_cluster io p fat32_cluster_eof first_cluster
    place_entry cluster_buffer last_cluster (set_first_cluster (store 4 entry 28 0) first_cluster)

  -- The entry for a component of the path that does not exist yet. The transformed name is written
  -- over zeros.
  unfoldable pub create_entry : ℕ → Mem → Mem → Mem → Bool → M io.Dev Mem
  create_entry fuel fresh current rel_path is_dir =
      elim (transform_loop fuel rel_path 0 0 false (λ x. if ltb x 11 then 0x20 else 0)) [
        | none ↦ λ d. (d, out_of_fuel)
        | some (entry, found_ext) ↦
            dir_append_entry fuel fresh current (
              if is_dir && not (is_directory entry)
              then write entry 11 (entry 11 + 0x10)
              else entry)
      ]

  -- Opens a component, or creates it after any error.
  unfoldable pub open_or_create : ℕ → Mem → Mem → Mem → Bool → M io.Dev Mem
  open_or_create fuel fresh current rel_path is_dir d =
      or_create current (create_entry fuel fresh current rel_path is_dir)
        (open_dir_entry io p fuel fresh current rel_path d)

  -- The loop over the `n` characters of the path that are left.
  unfoldable pub create_loop : ℕ → ℕ → Mem → Mem → ℕ → ℕ → Mem → M io.Dev (Unit {0})
  create_loop zero fuel fresh path i current_idx current = pure tt
  create_loop (suc n) fuel fresh path i current_idx current =
      elim (not (path i == b'/') && not (path i == 0)) [
        | true ↦ create_loop n fuel fresh path (i + 1) current_idx current
        | false ↦ do
          entry ← open_or_create fuel fresh current (component path current_idx i) (path i == b'/')
          create_loop n fuel fresh path (i + 1) (i + 1) entry
      ]

  unfoldable pub fat32_create_path : ℕ → Mem → Mem → Mem → M io.Dev (Unit {0})
  fat32_create_path fuel fresh root path d = elim (strlen fuel path 0) [
    | none ↦ (d, out_of_fuel)
    | some len ↦ elim (leb fat32_max_filename_length (len + 1)) [
      | true ↦ (d, err (negsuc 2))
      | false ↦ create_loop (len + 1) fuel fresh path 0 0 root d
    ]
  ]
