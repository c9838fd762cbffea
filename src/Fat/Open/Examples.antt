-- ===== src/Fat/Open/Examples.antt =====
-- The root directory of the small volume, and the file "a" in it.
use light_loader.Common.{◌≡◌, refl, ◌==◌, if◌then◌else◌, true, false, arith, [], ◌∷◌, some}
use light_loader.Common.Bytes.{Mem, load, write}
use light_loader.ByteDisk.InMemory.{memory_disk}
use light_loader.Fat.Results.{Ends}
use light_loader.Fat.{is_end}
use light_loader.Fat.Table.{entry}
use light_loader.Fat.Chain.{Chain}
use light_loader.Fat.Load.{file_byte}
use light_loader.Fat.Names.{same_text, to_uppercase, transform_loop, transform_fat_filename}
use light_loader.Memory.{strncmp, strncmp_loop}
use light_loader.Fat.Directory.Find.{shown, first_where}
use light_loader.Fat.Open.{enters, component, fat32_open}
use light_loader.Fat.Open.Root.{IsRootFile, root_file, fat32_open-IsRootFile}
use light_loader.Fat.Directory.{
  entry_at, same_name, dir_attr, dir_entry_get_start_cluster, open_dir_entry,
}
use light_loader.Fat.Directory.Open.{
  directory_bytes, IsOpenable, OpensOn, named, open_dir_entry-Opens,
}
use light_loader.Fat.SmallVolume.{
  volume, volume-HasTable, disk, table, disk-Holds, disk-ArePlaced, root_dir, root_dir-is_directory,
  root_dir-Chain,
}

root_dir-IsOpenable :
    IsOpenable memory_disk volume volume-HasTable table disk 2 (3 ∷ []) 5 root_dir disk
root_dir-IsOpenable = record {
  directory = root_dir-is_directory;
  table = disk-Holds;
  bytes = λ a. refl;
  chain = root_dir-Chain;
  placed = disk-ArePlaced;
  size_pos = omega arith;
  size_small = omega arith;
  fuel_enough = omega arith;
}

abbrev file_name : Mem
file_name x = if x == 0 then b'a' else 0

abbrev file_entry_name : Mem
file_entry_name = write (λ _. 0x20) 0 (to_uppercase b'a')

file_name-named : transform_fat_filename 5 file_name ≡ some (file_entry_name, false)
unfolding transform_fat_filename transform_loop
file_name-named = refl

open_dir_entry-Opens_example :
    OpensOn memory_disk volume volume-HasTable table disk 2
      (3 ∷ [])
      (λ _. 0)
      (named memory_disk volume volume-HasTable table disk 2 (3 ∷ []) (λ _. 0) file_entry_name)
      (open_dir_entry memory_disk volume 5 (λ _. 0) root_dir file_name disk)
open_dir_entry-Opens_example =
    open_dir_entry-Opens memory_disk volume volume-HasTable table disk 2 (3 ∷ []) 5 (λ _. 0)
      root_dir file_name file_entry_name false disk root_dir-IsOpenable file_name-named

found_first :
    named memory_disk volume volume-HasTable table disk 2 (3 ∷ []) (λ _. 0) file_entry_name ≡ some 0
unfolding first_where shown entry_at dir_attr same_name same_text strncmp strncmp_loop
    directory_bytes file_byte to_uppercase write
found_first = refl

abbrev file_entry : Mem
file_entry = entry_at (directory_bytes disk volume (2 ∷ 3 ∷ []) (λ _. 0)) 0

file_entry_plain : enters file_entry ≡ false
unfolding enters dir_attr entry_at directory_bytes file_byte
file_entry_plain = refl

file_entry-Chain : Chain table 16 (dir_entry_get_start_cluster file_entry) (4 ∷ [])
unfolding entry load is_end dir_entry_get_start_cluster entry_at directory_bytes file_byte
file_entry-Chain = (refl, refl, omega arith, refl)

path_transformed :
    transform_fat_filename 5 (component file_name 0 1) ≡ some (file_entry_name, false)
unfolding transform_fat_filename transform_loop component
path_transformed = refl

file_name-IsRootFile :
    IsRootFile memory_disk volume volume-HasTable table disk 2
      (3 ∷ [])
      5
      (λ _. 0)
      root_dir
      file_name
      1
      0
      4
      []
file_name-IsRootFile = record {
  text = λ j lt. (ground arith, ground arith);
  end = refl;
  short = omega arith;
  long_fuel = omega arith;
  name = file_entry_name;
  found_ext = false;
  transformed = path_transformed;
  found = found_first;
  plain = file_entry_plain;
  chain = file_entry-Chain;
  fuel_enough = omega arith;
}

fat32_open-IsRootFile_example :
    Ends (fat32_open memory_disk volume 5 (λ _. 0) root_dir file_name disk) (λ d' r.
      r
      ≡ some (
        true,
        root_file memory_disk volume volume-HasTable table disk 2 (3 ∷ []) (λ _. 0) root_dir 0 4 [],
      ))
fat32_open-IsRootFile_example =
    fat32_open-IsRootFile memory_disk volume volume-HasTable table disk 2 (3 ∷ []) 5 (λ _. 0)
      root_dir file_name 1 0 4 [] disk root_dir-IsOpenable file_name-IsRootFile
