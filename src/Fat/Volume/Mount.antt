-- ===== src/Fat/Volume/Mount.antt =====
-- A volume that is mounted has a table and clusters that lie on the disk.
use light_loader.Common.{
  ℕ, ◌+◌, ◌-◌, ◌*◌, ◌/◌, ◌%◌, ◌≤◌, ◌<◌, ◌≡◌, refl, ap, sym, ◌∙◌, ◌==◌, ltb, true, false,
  if◌then◌else◌, arith, ge→ltb, lt→ltb, le-or-lt, inl, inr, gt→==_false, w32, w64,
}
use mathlib.Core.Path.{subst}
use native.Mathlib.Nat.{mul-le-mul_right, div-mul-le_self, mul-pos, add-mul}
use light_loader.Common.Bytes.{Mem, load}
use light_loader.ByteDisk.{ByteDisk}
use light_loader.Fat.Results.{Ends, Ends-weaken}
use light_loader.Fat.{FatPrivate, fat32_cluster_limit}
use light_loader.Fat.Table.{HasTable, Keeps, lift_read-ok}
use light_loader.Fat.Load.{IsPlaced}
use light_loader.Fat.Volume.{
  is_fat, reserved_sectors, usable_sectors, mounted, root_entry, kept_vol_id, mount, fat32_probe,
}
use light_loader.Fat.Volume.Bpb
use light_loader.Fat.Directory.{is_directory, dir_attr, dir_entry_get_start_cluster}

-- The sectors of all tables.
abbrev pub table_sectors : Mem → ℕ
table_sectors b = b Bpb.fat_num * load 4 b Bpb.sectors_num_per_fat

abbrev pub clusters : Mem → ℕ
clusters b =
    (load 4 b Bpb.sector_num_fat32 - (load 2 b Bpb.reserved_sector_count + table_sectors b))
    / b Bpb.sectors_per_cluster

-- The parameter block of a FAT32 volume that lies within reach.
pub record IsVolume (b : Mem) (reach : ℕ) : Type 0 where
  pub fat : is_fat b ≡ true
  pub sector_pos : 0 < load 2 b Bpb.bytes_per_sector
  pub cluster_pos : 0 < b Bpb.sectors_per_cluster
  pub total_small : load 4 b Bpb.sector_num_fat32 < w32
  pub reserved_small : load 2 b Bpb.reserved_sector_count * load 2 b Bpb.bytes_per_sector < w32
  pub room : load 2 b Bpb.reserved_sector_count + table_sectors b ≤ load 4 b Bpb.sector_num_fat32
  pub enough : 65525 ≤ clusters b
  pub root_small : load 4 b Bpb.root_cluster < w32
  pub few : clusters b < fat32_cluster_limit
  pub table : clusters b * 4 + 4 ≤ table_sectors b * load 2 b Bpb.bytes_per_sector
  pub on_disk : load 4 b Bpb.sector_num_fat32 * load 2 b Bpb.bytes_per_sector ≤ reach
  pub small : reach < w64

reserved_sectors-eq :
    (b : Mem) (reach : ℕ)
    → IsVolume b reach
    → reserved_sectors b ≡ load 2 b Bpb.reserved_sector_count + table_sectors b
unfolding reserved_sectors
reserved_sectors-eq b reach v = omega (arith, v.room, v.total_small)

usable_sectors-eq :
    (b : Mem) (reach : ℕ)
    → IsVolume b reach
    → usable_sectors b
      ≡ load 4 b Bpb.sector_num_fat32 - (load 2 b Bpb.reserved_sector_count + table_sectors b)
unfolding usable_sectors
usable_sectors-eq b reach v = omega (arith, reserved_sectors-eq b reach v, v.room, v.total_small)

table_fits :
    (rc nt bps total count reach : ℕ)
    → rc + nt ≤ total
    → count * 4 + 4 ≤ nt * bps
    → total * bps ≤ reach
    → rc * bps + count * 4 + 4 ≤ reach
table_fits rc nt bps total count reach room t d =
    omega (arith, mul-le-mul_right bps room, add-mul rc nt bps)

cluster_fits :
    (start spc bps total k count reach : ℕ)
    → k < count
    → count * spc ≤ total - start
    → start ≤ total
    → total * bps ≤ reach
    → (start + k * spc) * bps + spc * bps ≤ reach
cluster_fits start spc bps total k count reach lt c s d =
    let next : k * spc + 1 * spc ≤ count * spc =
      omega (arith, mul-le-mul_right spc lt, add-mul k 1 spc) in
    let inner : start + k * spc + spc ≤ total = omega arith in
    omega (arith, mul-le-mul_right bps inner, add-mul (start + k * spc) spc bps)

mounted-HasTable : (io : ByteDisk) (b : Mem) → IsVolume b io.reach → HasTable io (mounted b)
unfolding mounted
mounted-HasTable io b v = record {
  within =
      let e = usable_sectors-eq b io.reach v in
      let low : load 2 b Bpb.reserved_sector_count * load 2 b Bpb.bytes_per_sector % w32
          ≡ load 2 b Bpb.reserved_sector_count * load 2 b Bpb.bytes_per_sector =
        omega (arith, v.reserved_small) in
      rw (e, low)
        (table_fits (load 2 b Bpb.reserved_sector_count) (table_sectors b)
          (load 2 b Bpb.bytes_per_sector) (load 4 b Bpb.sector_num_fat32) (clusters b) io.reach
          v.room v.table v.on_disk);
  small = v.small;
}

mounted-IsPlaced :
    (b : Mem) (reach c : ℕ)
    → IsVolume b reach
    → 2 ≤ c
    → c < clusters b + 2
    → IsPlaced (mounted b) reach c
unfolding mounted
mounted-IsPlaced b reach c v lo hi =
    let count = clusters b in
    let spc = b Bpb.sectors_per_cluster in
    let start = load 2 b Bpb.reserved_sector_count + table_sectors b in
    let total = load 4 b Bpb.sector_num_fat32 in
    let inner : count * spc ≤ total - start = div-mul-le_self (total - start) spc in
    let under : (c - 2) * spc ≤ count * spc = mul-le-mul_right spc (omega arith) in
    record {
      data_cluster = lo;
      narrow = omega (arith, v.total_small);
      word = omega (arith, v.few);
      sector = rw (reserved_sectors-eq b reach v) (omega (arith, v.total_small, v.room));
      within = rw (reserved_sectors-eq b reach v) (
          cluster_fits start spc (load 2 b Bpb.bytes_per_sector) total (c - 2) count reach
            (omega arith) inner v.room v.on_disk);
    }

mounted_count :
    (io : ByteDisk) (b : Mem) → IsVolume b io.reach → (mounted b).cluster_count ≡ clusters b
unfolding mounted
mounted_count io b v = ap (λ x. x / b Bpb.sectors_per_cluster) (usable_sectors-eq b io.reach v)

mounted_size : (io : ByteDisk) (b : Mem) → IsVolume b io.reach → 0 < (mounted b).cluster_size
unfolding mounted
mounted_size io b v = mul-pos v.cluster_pos v.sector_pos

-- The layout that the parameter block describes, in sums and products that do not wrap, and what the
-- other operations ask of a mounted volume.
pub record Mounted (io : ByteDisk) (b : Mem) (p : FatPrivate) (root : Mem) : Type 0 where
  pub sectors : p.sectors_per_cluster ≡ b Bpb.sectors_per_cluster
  pub sector_bytes : p.bytes_per_sector ≡ load 2 b Bpb.bytes_per_sector
  pub table_start :
      p.first_cluster_offset ≡ load 2 b Bpb.reserved_sector_count * load 2 b Bpb.bytes_per_sector
  pub data_start : p.usable_clusters_start ≡ load 2 b Bpb.reserved_sector_count + table_sectors b
  pub size : p.cluster_size ≡ b Bpb.sectors_per_cluster * load 2 b Bpb.bytes_per_sector
  pub table : HasTable io p
  pub count : p.cluster_count ≡ clusters b
  pub size_pos : 0 < p.cluster_size
  pub placed : (c : ℕ) → 2 ≤ c → c < p.cluster_count + 2 → IsPlaced p io.reach c
  pub root_directory : is_directory root ≡ true
  pub root_cluster : dir_entry_get_start_cluster root ≡ load 4 b Bpb.root_cluster

root_entry-is_directory : (r : ℕ) → is_directory (root_entry r) ≡ true
unfolding is_directory root_entry dir_attr
root_entry-is_directory r = refl

root_entry-cluster : (r : ℕ) → r < w32 → dir_entry_get_start_cluster (root_entry r) ≡ r
unfolding dir_entry_get_start_cluster root_entry load
root_entry-cluster r lt = omega arith

mounted-Mounted :
    (io : ByteDisk) (b : Mem)
    → IsVolume b io.reach
    → Mounted io b (mounted b) (root_entry (load 4 b Bpb.root_cluster))
unfolding mounted
mounted-Mounted io b v =
    let e : (mounted b).cluster_count ≡ clusters b = mounted_count io b v in
    record {
      sectors = refl;
      sector_bytes = refl;
      table_start = omega (arith, v.reserved_small);
      data_start = reserved_sectors-eq b io.reach v;
      size = refl;
      table = mounted-HasTable io b v;
      count = e;
      size_pos = mounted_size io b v;
      placed = λ c lo hi. mounted-IsPlaced b io.reach c v lo (omega (arith, e));
      root_directory = root_entry-is_directory (load 4 b Bpb.root_cluster);
      root_cluster = root_entry-cluster (load 4 b Bpb.root_cluster) v.root_small;
    }

mount-Mounted :
    (io : ByteDisk) (id : ℕ) (b : Mem) (d : io.Dev)
    → IsVolume b io.reach
    → Ends (mount io id b d) (λ d' r.
      (d' ≡ d) × Mounted io b r.0 r.1 × (r.2 ≡ (if id == 0 then load 4 b Bpb.volume_id else id)))
unfolding mount kept_vol_id
mount-Mounted io id b d v =
    let sector : (load 2 b Bpb.bytes_per_sector == 0) ≡ false = gt→==_false _ 0 v.sector_pos in
    let cluster : (b Bpb.sectors_per_cluster == 0) ≡ false = gt→==_false _ 0 v.cluster_pos in
    let enough : ltb (usable_sectors b / b Bpb.sectors_per_cluster) 65525 ≡ false =
      rw (usable_sectors-eq b io.reach v) (ge→ltb (clusters b) 65525 v.enough) in
    rw (v.fat, sector, cluster, enough) (refl, mounted-Mounted io b v, refl)

-- The first 512 bytes.
abbrev pub first_sector : Mem → Mem
first_sector disk x = if ltb x 512 then disk x else 0

first_sector-read :
    (io : ByteDisk) (d : io.Dev)
    → io.Sound d
    → 512 ≤ io.reach
    → (io.f_read d (λ _. 0) 512 0).1 ≡ first_sector (io.byte d)
first_sector-read io d s le = λ i x. byte x i
  where
    byte : (x : ℕ) → (io.f_read d (λ _. 0) 512 0).1 x ≡ first_sector (io.byte d) x
    byte x = elim (le-or-lt 512 x) [
      | inl out ↦ rw (ge→ltb x 512 out) (io.read_outside d (λ _. 0) 512 0 x s le out)
      | inr in_ ↦
          rw (lt→ltb x 512 in_)
            (io.read_inside d (λ _. 0) 512 0 x s le in_ ∙ ap (io.byte d) (omega arith))
    ]

-- On a sound disk whose first 512 bytes are the parameter block of a FAT32 volume that lies within
-- reach, the probe succeeds: the table begins behind the reserved sectors and the first data cluster
-- behind all tables, the sizes of sectors and clusters and the number of clusters are those of the
-- block, the table and every cluster from 2 on lie within reach, and the root entry is a directory
-- that begins with the root cluster. The kept volume id stays if it is not 0, and is otherwise the
-- one of the block. The disk's bytes stay.
pub fat32_probe-Mounted :
    (io : ByteDisk) (id : ℕ) (d : io.Dev)
    → io.Sound d
    → 512 ≤ io.reach
    → IsVolume (first_sector (io.byte d)) io.reach
    → Ends (fat32_probe io id d) (λ d' r.
      Keeps io d d'
      × Mounted io (first_sector (io.byte d)) r.0 r.1
      × (r.2 ≡ (if id == 0 then load 4 (first_sector (io.byte d)) Bpb.volume_id else id)))
unfolding fat32_probe
fat32_probe-Mounted io id d s le v =
    let d1 = (io.f_read d (λ _. 0) 512 0).0 in
    let keeps : Keeps io d d1 = record {
      sound = io.read_sound d (λ _. 0) 512 0 s le;
      bytes = λ a. io.read_keeps d (λ _. 0) 512 0 a s le;
    } in
    rw
      (
        lift_read-ok (io.f_read d (λ _. 0) 512 0) (io.read_ok d (λ _. 0) 512 0 s le),
        first_sector-read io d s le,
      )
      (Ends-weaken (mount io id (first_sector (io.byte d)) d1) _ _
        (mount-Mounted io id (first_sector (io.byte d)) d1 v)
        (λ d' r h. (subst (λ x. Keeps io d x) (sym h.0) keeps, h.1, h.2)))
