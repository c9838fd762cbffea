-- ===== src/Fat/Open.antt =====
-- Opening a file by its path: `fat32_open` and `fat32_open_idx`.
pub mod Root
mod Examples
use light_loader.Common.{
  ℕ, zero, suc, ◌+◌, ◌*◌, ◌/◌, ◌%◌, ◌==◌, leb, if◌then◌else◌, Bool, true, false, not, ◌&&◌, ◌||◌,
  Option, none, some, List, [], add32, add64,
}
use light_loader.Common.Bytes.{Mem}
use light_loader.ByteDisk.{ByteDisk}
use light_loader.Memory.{strlen}
use light_loader.Fat.Results.{Result, ok, err, fault, out_of_fuel, M, ◌>>=◌, pure}
use light_loader.Fat.{FatPrivate, cache_cluster_chain}
use light_loader.Fat.Write.{FatFile}
use light_loader.Fat.Directory.{
  dir_attr, filesize_bytes, dir_entry_get_start_cluster, open_dir_entry, open_dir_entry_idx,
}

abbrev pub fat32_max_filename_length : ℕ
fat32_max_filename_length = 261

-- Of the attributes for a directory and for a volume label, the first one only.
unfoldable pub enters : Mem → Bool
enters entry = (dir_attr entry / 16 % 2 == 1) && (dir_attr entry / 8 % 2 == 0)

-- The part of the path from `start` up to the separator at `end`.
unfoldable pub component : Mem → ℕ → ℕ → Mem
component path start end x = if start + x == end then 0 else path (start + x)

-- The entry that is opened next, and where it stands. Without one, both stay.
unfoldable pub located : FatPrivate → Mem → FatFile → Option (Mem × ℕ) → Mem × FatFile
located p current file none = (
  current,
  record file {
    direntry_cluster =
        add32 (dir_entry_get_start_cluster current) (file.direntry_cluster_offset / p.cluster_size);
    direntry_cluster_offset = file.direntry_cluster_offset % p.cluster_size;
  },
)
located p current file (some (entry, offset)) = (
  entry,
  record file {
    direntry_cluster = add32 (dir_entry_get_start_cluster current) (offset / p.cluster_size);
    direntry_cluster_offset = offset % p.cluster_size;
  },
)

-- `goto fail_and_deallocate`: an error becomes the null pointer.
abbrev pub or_null : {D A : Type 0} → D × Result (Option A) → D × Result (Option A)
or_null (d, ok a) = (d, ok a)
or_null (d, err e) = (d, ok none)
or_null (d, fault) = (d, fault)
or_null (d, out_of_fuel) = (d, out_of_fuel)

-- The file with its chain; an error is passed over for a file with no bytes, which has no chain then.
abbrev pub with_chain :
    {D : Type 0} → FatFile → ℕ → D × Result (List ℕ) → D × Result (Option (Bool × FatFile))
with_chain file filesize (d, ok chain) =
    (d, ok (some (true, record file { cluster_chain = chain; filesize = filesize })))
with_chain file zero (d, err e) =
    (d, ok (some (true, record file { cluster_chain = []; filesize = 0 })))
with_chain file (suc n) (d, err e) = (d, err e)
with_chain file filesize (d, fault) = (d, fault)
with_chain file filesize (d, out_of_fuel) = (d, out_of_fuel)

abbrev pub no_file : FatFile
no_file = record {
  cluster_chain = [];
  direntry_cluster = 0;
  direntry_cluster_offset = 0;
  filesize = 0;
}

module _ (io : ByteDisk) (p : FatPrivate) where
  unfoldable pub enter : ℕ → Mem → Mem → FatFile → Mem → M io.Dev (Mem × FatFile)
  enter fuel fresh current file rel_path = do
    opened ← open_dir_entry io p fuel fresh current rel_path
    pure (located p current file opened)

  unfoldable pub open_file : ℕ → Mem → FatFile → M io.Dev (Option (Bool × FatFile))
  open_file fuel entry file d =
      with_chain file (filesize_bytes entry)
        (cache_cluster_chain io p fuel (dir_entry_get_start_cluster entry) d)

  -- The loop over the `n` characters of the path that are left. The result says whether the callbacks
  -- of the file are set; `none` is the null pointer.
  unfoldable pub open_loop :
      ℕ → ℕ → Mem → Mem → ℕ → ℕ → Mem → FatFile → M io.Dev (Option (Bool × FatFile))
  open_loop zero fuel fresh path i current_idx current file = pure (some (false, file))
  open_loop (suc n) fuel fresh path i current_idx current file =
      elim (not (path i == b'/') && not (path i == 0)) [
        | true ↦ open_loop n fuel fresh path (i + 1) current_idx current file
        | false ↦ do
          (entry, file') ← enter fuel fresh current file (component path current_idx i)
          elim (enters entry) [
            | false ↦ open_file fuel entry file'
            | true ↦ open_loop n fuel fresh path (i + 1) (i + 1) entry file'
          ]
      ]

  -- The walk to the directory whose entries are opened by index.
  unfoldable pub walk_loop : ℕ → ℕ → Mem → Mem → ℕ → ℕ → Mem → FatFile → M io.Dev (Mem × FatFile)
  walk_loop zero fuel fresh path i current_idx current file = pure (current, file)
  walk_loop (suc n) fuel fresh path i current_idx current file =
      elim (not (path i == b'/') && not (path i == 0)) [
        | true ↦ walk_loop n fuel fresh path (i + 1) current_idx current file
        | false ↦ do
          (entry, file') ← enter fuel fresh current file (component path current_idx i)
          walk_loop n fuel fresh path (i + 1) (i + 1) entry file'
      ]

  unfoldable pub fat32_open : ℕ → Mem → Mem → Mem → M io.Dev (Option (Bool × FatFile))
  fat32_open fuel fresh root path d = elim (strlen fuel path 0) [
    | none ↦ (d, out_of_fuel)
    | some len ↦ elim (leb fat32_max_filename_length (len + 1)) [
      | true ↦ (d, ok none)
      | false ↦ or_null (open_loop (len + 1) fuel fresh path 0 0 root no_file d)
    ]
  ]

  unfoldable pub open_nth : ℕ → Mem → Mem → FatFile → ℕ → M io.Dev (Option (Bool × FatFile))
  open_nth fuel fresh current file idx = do
    opened ← open_dir_entry_idx io p fuel fresh current (add64 idx 2)
    elim (enters (located p current file opened).0) [
      | true ↦ pure none
      | false ↦ open_file fuel (located p current file opened).0 (located p current file opened).1
    ]

  unfoldable pub fat32_open_idx : ℕ → Mem → Mem → Mem → ℕ → M io.Dev (Option (Bool × FatFile))
  fat32_open_idx fuel fresh root path idx d = elim (strlen fuel path 0) [
    | none ↦ (d, out_of_fuel)
    | some len ↦ elim (leb fat32_max_filename_length (len + 1)) [
      | true ↦ (d, ok none)
      | false ↦ or_null (
          (walk_loop (len + 1) fuel fresh path 0 0 root no_file >>= λ r.
          open_nth fuel fresh r.0 r.1 idx)
            d)
    ]
  ]
