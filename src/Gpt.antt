-- ===== src/Gpt.antt =====
-- The partitions of a disk, from common/disk.c: the entries of the table, and the devices that are
-- linked for them.
pub mod Install
pub mod Entries
pub mod Layout
mod Examples
use light_loader.Common.{
  ℕ, zero, suc, ◌+◌, ◌-◌, ◌*◌, ◌/◌, ◌%◌, ◌==◌, ltb, leb, if◌then◌else◌, Bool, true, false, not,
  ◌&&◌, ◌||◌, Option, none, some, List, [], ◌∷◌, ◌++◌, length, w8, w16, w32, w64, add64, sub64, ℤ,
  pos, negsuc,
}
use light_loader.Common.Bytes.{Mem}
use light_loader.Heap.{align_up}

-- `disk_dev_t`, less its cache and callbacks, which a partition takes over from its disk.
pub record DiskDev : Type 0 where
  pub first_sector : ℕ
  pub total_size : ℕ
  pub sector_size : ℕ
  pub effective_sector_size : ℕ
  pub total_sectors : ℕ
  pub optimal_transfer_factor : ℕ
  pub dev_flags : ℕ

-- Single bits of the flags, by their value.
unfoldable pub has_flag : ℕ → ℕ → Bool
has_flag flags bit = flags / bit % 2 == 1

unfoldable pub set_flag : ℕ → ℕ → ℕ
set_flag flags bit = if has_flag flags bit then flags else flags + bit

unfoldable pub clear_flag : ℕ → ℕ → ℕ
clear_flag flags bit = if has_flag flags bit then flags - bit else flags

abbrev pub disk_flag_partition : ℕ
disk_flag_partition = 0x01

abbrev pub disk_flag_data_part : ℕ
disk_flag_data_part = 0x10

abbrev pub disk_flag_sys_part : ℕ
disk_flag_sys_part = 0x20

-- The list of `next_partition`, with the new device in front; a partition has none. The allocation
-- is taken to succeed.
unfoldable pub create_and_link_partition_dev : DiskDev → List DiskDev → ℕ → ℕ → List DiskDev
create_and_link_partition_dev parent partitions start_lba ending_lba =
    let total = sub64 ending_lba start_lba in
    let made : DiskDev = record parent {
      first_sector = start_lba;
      total_sectors = total;
      total_size = total * parent.effective_sector_size % w64;
      dev_flags = set_flag parent.dev_flags disk_flag_partition;
    } in
    if has_flag parent.dev_flags disk_flag_partition then partitions else made ∷ partitions

-- A type of partitions, by its identifier.
pub data PartType : Type 0 where
  basic : PartType
  efi_system : PartType

-- `gpt_entry_t`; the identifier's last eight bytes are constant.
pub record GptEntry : Type 0 where
  pub part_type : PartType
  pub guid_a : ℕ
  pub guid_b : ℕ
  pub guid_c : ℕ
  pub starting_lba : ℕ
  pub ending_lba : ℕ
  pub attributes : ℕ
  pub partition_name : List ℕ

-- The loop of `gpt_entry_set_partition_name`; a character is sign-extended to 16 bits.
unfoldable pub wide : List ℕ → List ℕ
wide [] = []
wide (c ∷ cs) = (if ltb c 128 then c else (c + 0xff00)) ∷ wide cs

-- The name's 36 characters have 72 bytes, and the test
-- takes their number.
unfoldable pub gpt_entry_set_partition_name : List ℕ → List ℕ
gpt_entry_set_partition_name name = if ltb 72 (length name) then [] else wide name

-- The last sector: that of the size, or the last one before the backup header.
unfoldable pub clamped_end : ℕ → ℕ → ℕ → ℕ → ℕ
clamped_end total_sectors starting sector_size size =
    let ending = add64 starting (align_up size sector_size / sector_size) in
    if size == 0
    then sub64 total_sectors 2
    else if leb (sub64 total_sectors 1) ending
    then sub64 total_sectors 2
    else ending

-- The entry, with the list of linked partitions.
unfoldable pub disk_add_gpt_partition_entry :
    DiskDev → List DiskDev → List ℕ → ℕ → ℕ → ℕ → PartType → GptEntry × List DiskDev
disk_add_gpt_partition_entry device partitions name start_offset size attrs type =
    let sector = device.effective_sector_size in
    let starting = sub64 start_offset (start_offset % sector) / sector in
    let ending = clamped_end device.total_sectors starting sector size in
    (
      record {
        part_type = type;
        guid_a = start_offset % w32;
        guid_b = start_offset / w32 % w16;
        guid_c = start_offset / (w32 * w16) % w16;
        starting_lba = starting;
        ending_lba = ending;
        attributes = attrs;
        partition_name = gpt_entry_set_partition_name name;
      },
      create_and_link_partition_dev device partitions starting ending,
    )

unfoldable pub gpt_entry_get_end_offset : DiskDev → GptEntry → ℕ
gpt_entry_get_end_offset device entry =
    add64 entry.ending_lba 1 * device.effective_sector_size % w64
