-- ===== src/Fat/Volume.antt =====
-- Volumes: `fat32_probe`.
pub mod Bpb
pub mod Mount
mod Examples
use light_loader.Common.{
  ℕ, zero, suc, ◌+◌, ◌-◌, ◌*◌, ◌/◌, ◌%◌, ◌==◌, ltb, if◌then◌else◌, Bool, true, false, not, ◌&&◌,
  List, [], ◌∷◌, w16, w32, sub32, ℤ, pos, negsuc,
}
use light_loader.Common.Bytes.{Mem, load, store, write}
use light_loader.ByteDisk.{ByteDisk}
use light_loader.Disk.{copy_range}
use light_loader.Fat.Results.{
  Result, ok, err, fault, M, ◌>>=◌, ◌>>◌, fail, pure, lift_read, lift_write,
}
use light_loader.Fat.{FatPrivate, fat32_cluster_eof, word_bytes}
use light_loader.Fat.Names.{same_text}
use light_loader.Fat.Volume.Bpb

-- "FAT32", whose beginning is "FAT".
abbrev pub fat32_text : Mem
fat32_text x =
    if x == 0
    then b'F'
    else if x == 1
    then b'A'
    else if x == 2
    then b'T'
    else if x == 3
    then b'3'
    else if x == 4
    then b'2'
    else 0

unfoldable pub is_fat : Mem → Bool
is_fat bpb = not (
    not (same_text 3 (λ x. bpb (Bpb.system_type + x)) fat32_text)
    && not (same_text 5 (λ x. bpb (Bpb.oem_name + x)) fat32_text))

unfoldable pub reserved_sectors : Mem → ℕ
reserved_sectors bpb =
    (load 2 bpb Bpb.reserved_sector_count + bpb Bpb.fat_num * load 4 bpb Bpb.sectors_num_per_fat)
    % w32

unfoldable pub usable_sectors : Mem → ℕ
usable_sectors bpb = sub32 (load 4 bpb Bpb.sector_num_fat32) (reserved_sectors bpb)

-- What is derived from the block. A cluster has at least one sector.
unfoldable pub mounted : Mem → FatPrivate
mounted bpb = record {
  sectors_per_cluster = bpb Bpb.sectors_per_cluster;
  bytes_per_sector = load 2 bpb Bpb.bytes_per_sector;
  first_cluster_offset =
      load 2 bpb Bpb.reserved_sector_count * load 2 bpb Bpb.bytes_per_sector % w32;
  cluster_count = usable_sectors bpb / bpb Bpb.sectors_per_cluster;
  cluster_size = bpb Bpb.sectors_per_cluster * load 2 bpb Bpb.bytes_per_sector;
  usable_clusters_start = reserved_sectors bpb;
}

-- The directory entry of the root, named "/", with its first cluster.
unfoldable pub root_entry : ℕ → Mem
root_entry root x =
    if x == 0
    then b'/'
    else if ltb x 11
    then 0x20
    else if x == 11
    then 0x10
    else if x == 20
    then root / 65536 % 256
    else if x == 21
    then root / 16777216 % 256
    else if x == 26
    then root % 256
    else if x == 27
    then root / 256 % 256
    else 0

-- The volume id that is kept for an installation: the one of the first volume that is mounted with
-- an id other than 0.
unfoldable pub kept_vol_id : ℕ → Mem → ℕ
kept_vol_id cached_vol_id bpb =
    if cached_vol_id == 0 then load 4 bpb Bpb.volume_id else cached_vol_id

module _ (io : ByteDisk) (cached_vol_id : ℕ) where
  -- The volume, its root entry and the kept id; an error leaves the id as it is. A division by a number of sectors that is 0 has no defined behaviour.
  unfoldable pub mount : Mem → M io.Dev (FatPrivate × Mem × ℕ)
  mount bpb d =
      if not (is_fat bpb)
      then (d, err (negsuc 0))
      else if load 2 bpb Bpb.bytes_per_sector == 0
      then (d, err (negsuc 1))
      else if bpb Bpb.sectors_per_cluster == 0
      then (d, fault)
      else if ltb (usable_sectors bpb / bpb Bpb.sectors_per_cluster) 65525
      then (d, err (negsuc 0))
      else (
        d,
        ok (mounted bpb, root_entry (load 4 bpb Bpb.root_cluster), kept_vol_id cached_vol_id bpb),
      )

  unfoldable pub fat32_probe : M io.Dev (FatPrivate × Mem × ℕ)
  fat32_probe = do bpb ← λ d. lift_read (io.f_read d (λ _. 0) 512 0); mount bpb
