-- ===== src/Fat.antt =====
-- The FAT32 file system, common/fs/fat/fat32.c, over the operations of a disk device: here the file
-- allocation table and the clusters, in Fat/Directory the directories.
pub mod Results
pub mod Table
pub mod Chain
pub mod Free
pub mod Load
pub mod Names
pub mod Directory
pub mod Write
pub mod Volume
pub mod Open
pub mod Create
pub mod SmallVolume
mod Examples
use light_loader.Common.{
  ℕ, zero, suc, ◌+◌, ◌-◌, ◌*◌, ◌/◌, ◌%◌, ◌==◌, ltb, leb, if◌then◌else◌, Bool, true, false, not,
  ◌&&◌, ◌||◌, Option, none, some, List, [], ◌∷◌, length, get_elem?, w32, w64, add64, add32, sub32,
  ℤ, pos, negsuc,
}
use light_loader.Common.Bytes.{Mem, load, store}
use light_loader.ByteDisk.{ByteDisk}
use light_loader.Disk.{copy_range}
use light_loader.Fat.Results.{
  Result, ok, err, fault, out_of_fuel, M, ◌>>=◌, ◌>>◌, fail, pure, lift_read, lift_write, or_fail,
}

abbrev pub fat32_cluster_limit : ℕ
fat32_cluster_limit = 0x0ffffff7

abbrev pub fat32_cluster_eof : ℕ
fat32_cluster_eof = 0x0fffffff

-- `fat_private_t`, with the two fields of the parameter block that are used behind the probe.
pub record FatPrivate : Type 0 where
  pub sectors_per_cluster : ℕ
  pub bytes_per_sector : ℕ
  pub first_cluster_offset : ℕ
  pub cluster_count : ℕ
  pub cluster_size : ℕ
  pub usable_clusters_start : ℕ

-- The cluster is no data cluster: the chain ends here.
unfoldable pub is_end : ℕ → Bool
is_end value = ltb value 2 || leb fat32_cluster_limit value

-- Where the table's value for a cluster stands, and where the cluster itself.
unfoldable pub table_offset : FatPrivate → ℕ → ℕ
table_offset p cluster = add64 p.first_cluster_offset (cluster * 4)

unfoldable pub cluster_offset : FatPrivate → ℕ → ℕ
cluster_offset p cluster =
    add64 p.usable_clusters_start (sub32 cluster 2 * p.sectors_per_cluster % w32)
    * p.bytes_per_sector
    % w64

-- The bytes of a 32-bit value.
unfoldable pub word_bytes : ℕ → Mem
word_bytes value = store 4 (λ _. 0) 0 value

module _ (io : ByteDisk) (p : FatPrivate) where
  -- `f_read` and `f_write` of the device, whose errors are passed on.
  unfoldable pub read_bytes : Mem → ℕ → ℕ → M io.Dev Mem
  read_bytes buffer size offset d = lift_read (io.f_read d buffer size offset)

  unfoldable pub write_bytes : Mem → ℕ → ℕ → M io.Dev (Unit {0})
  write_bytes buffer size offset d = lift_write (io.f_write d buffer size offset)

  unfoldable pub load_cluster : ℕ → M io.Dev ℕ
  load_cluster cluster = if ltb p.cluster_count cluster then fail (negsuc 0) else do
    buffer ← read_bytes (λ _. 0) 4 (table_offset p cluster)
    pure (load 4 buffer 0 % 0x10000000)

  unfoldable pub set_cluster : ℕ → ℕ → M io.Dev (Unit {0})
  set_cluster value cluster =
      if ltb p.cluster_count cluster
      then fail (negsuc 0)
      else write_bytes (word_bytes (value % 0x10000000)) 4 (table_offset p cluster)

  unfoldable pub read_cluster : Mem → ℕ → M io.Dev Mem
  read_cluster buffer cluster =
      if ltb cluster 2
      then fail (negsuc 0)
      else or_fail (negsuc 1) (read_bytes buffer p.cluster_size (cluster_offset p cluster))

  unfoldable pub write_cluster : Mem → ℕ → M io.Dev (Unit {0})
  write_cluster buffer cluster =
      if ltb cluster 2
      then fail (negsuc 0)
      else or_fail (negsuc 1) (write_bytes buffer p.cluster_size (cluster_offset p cluster))

  -- The search for a value 0 in the table.
  unfoldable pub find_free_loop : ℕ → ℕ → M io.Dev ℕ
  find_free_loop zero current_index = λ d. (d, out_of_fuel)
  find_free_loop (suc fuel) current_index = elim (ltb current_index p.cluster_count) [
    | false ↦ fail (negsuc 0)
    | true ↦ do
      value ← load_cluster current_index
      elim (value == 0) [
        | true ↦ pure current_index
        | false ↦ find_free_loop fuel (current_index + 1)
      ]
  ]

  unfoldable pub find_free_cluster : M io.Dev ℕ
  find_free_cluster = find_free_loop p.cluster_count 2

  -- `previous_value` is the cluster whose value is loaded.
  unfoldable pub find_end_cluster : ℕ → ℕ → M io.Dev ℕ
  find_end_cluster zero previous_value = λ d. (d, out_of_fuel)
  find_end_cluster (suc fuel) previous_value = do
    value ← load_cluster previous_value
    elim (is_end value) [ true ↦ pure previous_value | false ↦ find_end_cluster fuel value ]

  -- The two loops of `__fat32_cache_cluster_chain`: the length, and the clusters.
  unfoldable pub length_loop : ℕ → ℕ → ℕ → M io.Dev ℕ
  length_loop zero cluster length = λ d. (d, out_of_fuel)
  length_loop (suc fuel) cluster length = do
    value ← load_cluster cluster
    elim (is_end value) [ true ↦ pure length | false ↦ length_loop fuel value (length + 1) ]

  unfoldable pub store_loop : ℕ → ℕ → M io.Dev (List ℕ)
  store_loop zero cluster = pure []
  store_loop (suc n) cluster = do
    value ← load_cluster cluster
    rest ← store_loop n value
    pure (cluster ∷ rest)

  -- For a file that has no chain yet.
  unfoldable pub cache_cluster_chain : ℕ → ℕ → M io.Dev (List ℕ)
  cache_cluster_chain fuel start_cluster =
      if is_end start_cluster
      then fail (negsuc 0)
      else do length ← length_loop fuel start_cluster 1; store_loop length start_cluster

  -- The part of the bytes that lies in one cluster.
  unfoldable pub load_delta : ℕ → ℕ → ℕ → ℕ
  load_delta count index deviation =
      if ltb (p.cluster_size - deviation) (count - index)
      then p.cluster_size - deviation
      else count - index

  unfoldable pub load_clusters_loop : ℕ → List ℕ → ℕ → ℕ → Mem → ℕ → M io.Dev Mem
  load_clusters_loop zero chain start count buffer index = λ d. (d, out_of_fuel)
  load_clusters_loop (suc fuel) chain start count buffer index =
      let current_offset = add64 start index in
      let deviation = current_offset % p.cluster_size in
      let delta = load_delta count index deviation in
      elim (ltb index count) [
        | false ↦ pure buffer
        | true ↦ elim (get_elem? chain (current_offset / p.cluster_size)) [
          | none ↦ λ d. (d, fault)
          | some cluster ↦ do
            bytes ←
                or_fail (negsuc 1)
                  (read_bytes buffer delta (add64 (cluster_offset p cluster) deviation))
            load_clusters_loop fuel chain start count (copy_range buffer index bytes 0 delta)
                (index + delta)
        ]
      ]

  -- Every round loads a byte at least. The start is put in 32 bits.
  unfoldable pub load_clusters : Mem → List ℕ → ℕ → ℕ → M io.Dev Mem
  load_clusters buffer chain start count =
      load_clusters_loop (suc count) chain (start % w32) count buffer 0
