-- ===== src/Fat/Write.antt =====
-- Writes to a file: `__fat32_file_write`, which takes clusters for what does not fit yet.
pub mod Grow
use light_loader.Common.{
  ℕ, zero, suc, ◌+◌, ◌-◌, ◌*◌, ◌/◌, ◌%◌, ◌==◌, ltb, leb, if◌then◌else◌, Bool, true, false, not,
  Option, none, some, List, [], ◌∷◌, length, get_elem?, get_or, w32, w64, add64, add32, sub64,
  sub32, ℤ,
}
use light_loader.Common.Bytes.{Mem, store}
use light_loader.ByteDisk.{ByteDisk}
use light_loader.Disk.{copy_range}
use light_loader.Heap.{align_up}
use light_loader.Fat.Results.{Result, ok, err, fault, out_of_fuel, M, ◌>>=◌, ◌>>◌, pure, follow}
use light_loader.Fat.{
  FatPrivate, fat32_cluster_eof, find_free_cluster, find_end_cluster, set_cluster, read_cluster,
  write_cluster, cache_cluster_chain,
}

-- `fat_file_t` and the size of its `light_file_t`; no chain is the null pointer.
pub record FatFile : Type 0 where
  pub cluster_chain : List ℕ
  pub direntry_cluster : ℕ
  pub direntry_cluster_offset : ℕ
  pub filesize : ℕ

-- A call whose result is not looked at: after an error the value is `a`.
abbrev pub or_else : {D A : Type 0} → A → D × Result A → D × Result A
or_else a (d, ok b) = (d, ok b)
or_else a (d, err e) = (d, ok a)
or_else a (d, fault) = (d, fault)
or_else a (d, out_of_fuel) = (d, out_of_fuel)

-- ALIGN_UP on `uint32_t`.
unfoldable pub align_up32 : ℕ → ℕ → ℕ
align_up32 addr size = if addr % size == 0 then addr else sub32 (add32 addr size) (addr % size)

-- The clusters that a write needs behind the file's own.
unfoldable pub overflow_clusters : FatPrivate → ℕ → ℕ → ℕ → ℕ
overflow_clusters p chain_length size offset =
    let max_offset = sub64 (chain_length * p.cluster_size % w64) 1 % w32 in
    let overflow_delta =
      if ltb max_offset (add64 offset size)
      then sub64 (add64 offset size) max_offset % w32
      else 0 in
    align_up32 overflow_delta p.cluster_size / p.cluster_size

module _ (io : ByteDisk) (p : FatPrivate) where
  -- `while (overflow_clusters)`: a free cluster goes to the end of the chain.
  unfoldable pub grow_loop : ℕ → ℕ → M io.Dev ℕ
  grow_loop zero file_end_cluster = pure file_end_cluster
  grow_loop (suc n) file_end_cluster = do
    next_free_cluster ← find_free_cluster io p
    (λ d. or_else tt (set_cluster io p next_free_cluster file_end_cluster d))
    (λ d. or_else tt (set_cluster io p fat32_cluster_eof next_free_cluster d))
    grow_loop n next_free_cluster

  -- The chain is cached again if clusters were taken.
  unfoldable pub recache : ℕ → ℕ → ℕ → List ℕ → M io.Dev (List ℕ)
  recache fuel taken start chain =
      if taken == 0 then pure chain else cache_cluster_chain io p fuel start

  -- The loop over the clusters to write, from `index` on. A failed read leaves the old buffer.
  unfoldable pub write_clusters_loop : ℕ → List ℕ → Mem → ℕ → ℕ → ℕ → ℕ → Mem → M io.Dev Mem
  write_clusters_loop zero chain buffer size index current_offset current_delta cluster_buffer =
      pure cluster_buffer
  write_clusters_loop (suc n) chain buffer size index current_offset current_delta cluster_buffer =
      let room = p.cluster_size - current_offset in
      let rest_size = (size - current_delta) % w32 in
      let write_size = if ltb room rest_size then room else rest_size in
      elim (leb size current_delta) [
        | true ↦ pure cluster_buffer
        | false ↦ elim (get_elem? chain index) [
          | none ↦ λ d. (d, fault)
          | some this_cluster ↦ do
            old ← λ d. or_else cluster_buffer (read_cluster io p cluster_buffer this_cluster d)
            (λ d. or_else tt (
                write_cluster io p (copy_range old current_offset buffer current_delta write_size)
                  this_cluster d))
            write_clusters_loop n chain buffer size (index + 1) 0 (add32 current_delta write_size)
                (copy_range old current_offset buffer current_delta write_size)
        ]
      ]

  -- The size in the file's directory entry; an error ends the function, with the result 0.
  unfoldable pub set_dir_entry_size : FatFile → ℕ → Mem → M io.Dev (Unit {0})
  set_dir_entry_size file chain_length cluster_buffer d = or_else tt (
      follow (read_cluster io p cluster_buffer file.direntry_cluster d) (λ sector.
        write_cluster io p
          (store 4 sector (file.direntry_cluster_offset + 28) (chain_length * p.cluster_size % w32))
          file.direntry_cluster))

  -- `fresh` is what the new buffer holds at first.
  unfoldable pub file_write : ℕ → FatFile → Mem → ℕ → ℕ → Mem → M io.Dev FatFile
  file_write fuel file buffer size offset fresh =
      let chain = file.cluster_chain in
      let taken = overflow_clusters p (length chain) size offset in
      let start = get_or chain 0 0 in
      do
        end ← find_end_cluster io p fuel start
        new_end ← grow_loop taken end
        chain' ← recache fuel taken start chain
        last ←
            write_clusters_loop (align_up size p.cluster_size / p.cluster_size % w32) chain' buffer
              size ((offset - offset % p.cluster_size) / p.cluster_size % w32 / length chain')
              (offset % p.cluster_size) 0 fresh
        set_dir_entry_size file (length chain') last
        pure (record file {
          cluster_chain = chain';
          filesize = if taken == 0 then file.filesize else length chain' * p.cluster_size;
        })
