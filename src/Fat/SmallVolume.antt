-- ===== src/Fat/SmallVolume.antt =====
-- A disk in memory with a small volume: 64-byte clusters, the table at 0, cluster `c` at `64 * c`. The
-- chain of cluster 2 is 2, 3.
use light_loader.Common.{
  ℕ, ◌≡◌, ◌≢◌, refl, ltb, leb, ◌==◌, if◌then◌else◌, true, ◌&&◌, ◌||◌, arith, [], ◌∷◌,
}
use light_loader.Common.Bytes.{Mem, load}
use light_loader.ByteDisk.InMemory.{memory_disk}
use light_loader.Fat.{FatPrivate, is_end}
use light_loader.Fat.Table.{HasTable, entry}
use light_loader.Fat.Chain.{Chain, Holds}
use light_loader.Fat.Load.{ArePlaced}
use light_loader.Fat.Directory.{is_directory, dir_attr, dir_entry_get_start_cluster}

abbrev pub volume : FatPrivate
volume = record {
  sectors_per_cluster = 1;
  bytes_per_sector = 64;
  first_cluster_offset = 0;
  cluster_count = 16;
  cluster_size = 64;
  usable_clusters_start = 2;
}

pub volume-HasTable : HasTable memory_disk volume
volume-HasTable = record { within = omega arith; small = omega arith }

-- Cluster 2 holds a directory with the entry "A" for a file of ten bytes in cluster 4, and then the end.
abbrev pub disk : Mem
disk a =
    if a == 8
    then 3
    else if (leb 12 a && ltb a 15) || (leb 16 a && ltb a 19)
    then 255
    else if (a == 15) || (a == 19)
    then 15
    else if a == 128
    then b'A'
    else if leb 129 a && ltb a 139
    then 0x20
    else if a == 154
    then 4
    else if a == 156
    then 10
    else 0

abbrev pub table : ℕ → ℕ
table k = entry memory_disk volume disk k

pub disk-Holds : Holds memory_disk volume volume-HasTable table disk
disk-Holds = record { sound = tt; table = λ k. refl }

pub disk-Chain : Chain table 16 2 (2 ∷ 3 ∷ [])
unfolding entry load is_end
disk-Chain = (refl, refl, omega arith, (refl, refl, omega arith, refl))

pub disk-ArePlaced : ArePlaced volume 1099511627776 (2 ∷ 3 ∷ [])
disk-ArePlaced = (
  record {
    data_cluster = omega arith;
    narrow = omega arith;
    word = omega arith;
    sector = omega arith;
    within = omega arith;
  },
  (
    record {
      data_cluster = omega arith;
      narrow = omega arith;
      word = omega arith;
      sector = omega arith;
      within = omega arith;
    },
    tt,
  ),
)

pub three_used : table 3 ≢ 0
unfolding entry load
three_used e = omega (arith, e)

-- The root directory's entry: a directory that begins with cluster 2.
abbrev pub root_dir : Mem
root_dir x = if x == 11 then 0x10 else if x == 26 then 2 else 0

pub root_dir-is_directory : is_directory root_dir ≡ true
unfolding is_directory dir_attr
root_dir-is_directory = refl

pub root_dir-Chain : Chain table 16 (dir_entry_get_start_cluster root_dir) (2 ∷ 3 ∷ [])
unfolding entry load is_end dir_entry_get_start_cluster
root_dir-Chain = (refl, refl, omega arith, (refl, refl, omega arith, refl))
