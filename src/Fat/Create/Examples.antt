-- ===== src/Fat/Create/Examples.antt =====
-- A new entry in the root directory of the small volume.
use light_loader.Common.{refl, ltb, ◌==◌, if◌then◌else◌, arith, [], ◌∷◌}
use light_loader.Common.Bytes.{Mem}
use light_loader.ByteDisk.InMemory.{memory_disk}
use light_loader.Fat.SmallVolume.{
  volume, volume-HasTable, disk, table, disk-Holds, three_used, root_dir, root_dir-is_directory,
  root_dir-Chain,
}
use light_loader.Fat.Create.{dir_append_entry}
use light_loader.Fat.Create.Append.{IsLaidOut}
use light_loader.Fat.Create.Entry.{IsAppendable, Appends, dir_append_entry-Appends}

volume-IsLaidOut : IsLaidOut volume 1099511627776
volume-IsLaidOut = record {
  size = refl;
  size_pos = omega arith;
  behind = omega arith;
  placed = λ c lo hi. record {
    data_cluster = lo;
    narrow = omega arith;
    word = omega arith;
    sector = omega arith;
    within = omega arith;
  };
  count_pos = omega arith;
  few = omega arith;
}

root_dir-IsAppendable :
    IsAppendable memory_disk volume volume-HasTable volume-IsLaidOut table 5 root_dir 3 0 disk
root_dir-IsAppendable = record {
  directory = root_dir-is_directory;
  table = disk-Holds;
  first = 2;
  others = 3 ∷ [];
  chain = root_dir-Chain;
  is_last = refl;
  data_cluster = omega arith;
  in_table = omega arith;
  used = three_used;
  fuel_enough = omega arith;
  room_inner = omega arith;
  room_free = refl;
}

-- The entry "B" of a new directory.
abbrev new_entry : Mem
new_entry x = if x == 0 then b'B' else if ltb x 11 then 0x20 else if x == 11 then 0x10 else 0

dir_append_entry-Appends_example :
    Appends memory_disk volume volume-HasTable volume-IsLaidOut table root_dir new_entry 3 disk
      (dir_append_entry memory_disk volume 5 (λ _. 0) root_dir new_entry disk)
dir_append_entry-Appends_example =
    dir_append_entry-Appends memory_disk volume volume-HasTable volume-IsLaidOut table 5 (λ _. 0)
      root_dir new_entry 3 0 disk root_dir-IsAppendable
