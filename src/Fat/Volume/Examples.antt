-- ===== src/Fat/Volume/Examples.antt =====
-- A volume of 70000 sectors with one table of 600 sectors.
use light_loader.Common.{ℕ, ◌≡◌, refl, ◌==◌, if◌then◌else◌, true, arith}
use light_loader.Common.Bytes.{Mem, load}
use light_loader.ByteDisk.InMemory.{memory_disk}
use light_loader.Memory.{strncmp, strncmp_loop}
use light_loader.Fat.Results.{Ends}
use light_loader.Fat.Names.{same_text}
use light_loader.Fat.Table.{Keeps}
use light_loader.Fat.Volume.{is_fat, fat32_probe}
use light_loader.Fat.Volume.Bpb
use light_loader.Fat.Volume.Mount.{first_sector, IsVolume, Mounted, fat32_probe-Mounted}

abbrev disk : Mem
disk x =
    if x == 12
    then 2
    else if x == 13
    then 1
    else if x == 14
    then 32
    else if x == 16
    then 1
    else if x == 32
    then 0x70
    else if x == 33
    then 0x11
    else if x == 34
    then 1
    else if x == 36
    then 0x58
    else if x == 37
    then 2
    else if x == 44
    then 2
    else if x == 82
    then b'F'
    else if x == 83
    then b'A'
    else if x == 84
    then b'T'
    else 0

disk-is_fat : is_fat (first_sector disk) ≡ true
unfolding is_fat same_text strncmp strncmp_loop
disk-is_fat = refl

disk-IsVolume : IsVolume (first_sector disk) 1099511627776
unfolding load
disk-IsVolume = record {
  fat = disk-is_fat;
  sector_pos = omega arith;
  cluster_pos = omega arith;
  total_small = omega arith;
  reserved_small = omega arith;
  room = omega arith;
  enough = omega arith;
  root_small = omega arith;
  few = omega arith;
  table = omega arith;
  on_disk = omega arith;
  small = omega arith;
}

abbrev vol_id : ℕ
vol_id = 7

fat32_probe-Mounted_example : Ends (fat32_probe memory_disk vol_id disk) (λ d' r.
    Keeps memory_disk disk d'
    × Mounted memory_disk (first_sector disk) r.0 r.1
    × (r.2 ≡ (if vol_id == 0 then load 4 (first_sector disk) Bpb.volume_id else vol_id)))
fat32_probe-Mounted_example =
    fat32_probe-Mounted memory_disk vol_id disk tt (omega arith) disk-IsVolume
