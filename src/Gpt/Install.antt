-- ===== src/Gpt/Install.antt =====
-- disk_install_partitions of common/disk.c: the layout of the partitions, the header, and the
-- requests that write the table.
use light_loader.Common.{
  ℕ, ◌+◌, ◌*◌, ◌/◌, ◌%◌, ltb, if◌then◌else◌, Bool, not, ◌||◌, Option, none, some, List, [], ◌∷◌,
  ◌++◌, w32, w64, sub64, ℤ, pos, negsuc,
}
use light_loader.Heap.{align_up}
use light_loader.Gpt.{
  DiskDev, has_flag, set_flag, clear_flag, disk_flag_partition, disk_flag_data_part,
  disk_flag_sys_part, basic, efi_system, GptEntry, disk_add_gpt_partition_entry,
  gpt_entry_get_end_offset,
}

abbrev pub gpt_attr_required : ℕ
gpt_attr_required = 1

abbrev pub mib : ℕ
mib = 0x100000

abbrev pub gib : ℕ
gib = 0x40000000

-- What becomes of the device that was linked last.
unfoldable pub change_first : (DiskDev → DiskDev) → List DiskDev → List DiskDev
change_first f [] = []
change_first f (d ∷ ds) = f d ∷ ds

abbrev pub gap_name : List ℕ
gap_name = b'L' ∷ b'i' ∷ b'g' ∷ b'h' ∷ b't' ∷ b'G' ∷ b'A' ∷ b'P' ∷ []

abbrev pub system_name : List ℕ
system_name =
    b'L' ∷ b'i' ∷ b'g' ∷ b'h' ∷ b't' ∷ b'O' ∷ b'S' ∷ b' ' ∷ b'S' ∷ b'y' ∷ b's' ∷ b't' ∷ b'e' ∷ b'm'
    ∷ []

abbrev pub data_name : List ℕ
data_name = b'L' ∷ b'i' ∷ b'g' ∷ b'h' ∷ b't' ∷ b'O' ∷ b'S' ∷ b' ' ∷ b'D' ∷ b'a' ∷ b't' ∷ b'a' ∷ []

-- `header_template`; the signature, the revision, the sizes and the disk's identifier are constant.
pub record GptHeader : Type 0 where
  pub my_lba : ℕ
  pub alt_lba : ℕ
  pub first_usable_lba : ℕ
  pub last_usable_lba : ℕ
  pub partition_entry_lba : ℕ
  pub partition_entry_num : ℕ
  pub partition_entry_array_crc32 : ℕ
  pub header_crc32 : ℕ

unfoldable pub header_template : DiskDev → GptHeader
header_template device =
    let last = sub64 device.total_sectors 1 in
    record {
      my_lba = 1;
      alt_lba = last;
      first_usable_lba = 2048;
      last_usable_lba = last;
      partition_entry_lba = 2;
      partition_entry_num = 80;
      partition_entry_array_crc32 = 0;
      header_crc32 = 0;
    }

-- The gap for the boot loader.
unfoldable pub add_gap_partition : DiskDev → List DiskDev → GptEntry × List DiskDev
add_gap_partition device partitions =
    let (e, ps) =
      disk_add_gpt_partition_entry device partitions gap_name
        (2048 * device.effective_sector_size % w64) (9 * mib) gpt_attr_required basic in
    (
      e,
      change_first
          (λ d. record d {
            dev_flags = clear_flag (clear_flag d.dev_flags disk_flag_sys_part) disk_flag_data_part;
          })
          ps,
    )

unfoldable pub add_system_partition : DiskDev → List DiskDev → ℕ → GptEntry × List DiskDev
add_system_partition device partitions previous_offset =
    let (e, ps) =
      disk_add_gpt_partition_entry device partitions system_name previous_offset (3885056 * 512)
        gpt_attr_required efi_system in
    (e, change_first (λ d. record d { dev_flags = set_flag d.dev_flags disk_flag_sys_part }) ps)

unfoldable pub add_data_partition : DiskDev → List DiskDev → ℕ → GptEntry × List DiskDev
add_data_partition device partitions previous_offset =
    let sector = device.effective_sector_size in
    let left = sub64 (sub64 device.total_size previous_offset) (16 * sector % w64) in
    let (e, ps) =
      disk_add_gpt_partition_entry device partitions data_name previous_offset
        (sub64 left (left % sector)) 0 basic in
    (e, change_first (λ d. record d { dev_flags = set_flag d.dev_flags disk_flag_data_part }) ps)

-- The entries, in the order of the table, and the linked devices.
unfoldable pub add_partitions : DiskDev → List DiskDev → Bool → List GptEntry × List DiskDev
add_partitions device partitions add_gap =
    let start = 2048 * device.effective_sector_size % w64 in
    let gap = add_gap_partition device partitions in
    let sys_behind = add_system_partition device gap.1 (gpt_entry_get_end_offset device gap.0) in
    let data_behind =
      add_data_partition device sys_behind.1 (gpt_entry_get_end_offset device sys_behind.0) in
    let sys_first = add_system_partition device partitions start in
    let data_first =
      add_data_partition device sys_first.1 (gpt_entry_get_end_offset device sys_first.0) in
    if add_gap
    then (gap.0 ∷ sys_behind.0 ∷ data_behind.0 ∷ [], data_behind.1)
    else (sys_first.0 ∷ data_first.0 ∷ [], data_first.1)

-- What is written: zeros, an entry of the master boot record, its signature, or the table.
pub data Content : Type 0 where
  zeros : Content
  protective_entry : ℕ → Content
  mbr_signature : Content
  partition_table : GptHeader → List GptEntry → Content

-- A call of `f_write_zero` or `f_write` of the disk or of a partition that begins at a sector: the
-- content, its size in bytes, and the offset in bytes.
pub record Request : Type 0 where
  pub base : ℕ
  pub content : Content
  pub bytes : ℕ
  pub offset : ℕ

unfoldable pub write_protective_mbr : DiskDev → List Request
write_protective_mbr device =
    record { base = 0; content = zeros; bytes = device.effective_sector_size; offset = 0 }
    ∷ record {
      base = 0;
      content = protective_entry (device.total_size / 512 % w32);
      bytes = 16;
      offset = 0x1be;
    }
    ∷ record { base = 0; content = mbr_signature; bytes = 2; offset = 0x1fe }
    ∷ []

-- What an installation leaves, with the result; `none` for the table where none is written.
pub record Installed : Type 0 where
  pub result : ℤ
  pub table : Option (GptHeader × List GptEntry)
  pub linked : List DiskDev
  pub requests : List Request

-- The gap is cleared when it is linked.
unfoldable pub gap_requests : DiskDev → List DiskDev → Bool → List Request
gap_requests device partitions add_gap =
    let cleared = elim (add_gap_partition device partitions).1 as (λ x. List Request) [
      | [] ↦ []
      | ◌∷◌ d ds ↦
          record { base = d.first_sector; content = zeros; bytes = d.total_size; offset = 0 } ∷ []
    ] in
    if add_gap then cleared else []

-- The size of the header and of 80 entries of 128 bytes, in whole sectors.
unfoldable pub table_size : DiskDev → ℕ
table_size device =
    (device.effective_sector_size + align_up (80 * 128) device.effective_sector_size) % w32

-- The writes of the table, behind the check sums: at LBA 1, and of 512 bytes at the offset `alt_lba`.
unfoldable pub table_requests : DiskDev → GptHeader → List GptEntry → List Request
table_requests device header entries =
    write_protective_mbr device
    ++ (record {
      base = 0;
      content = partition_table header entries;
      bytes = table_size device;
      offset = device.effective_sector_size;
    }
        ∷ record {
          base = 0;
          content = partition_table header entries;
          bytes = 512;
          offset = header.alt_lba;
        }
        ∷ [])

unfoldable pub refused : List DiskDev → ℤ → Installed
refused partitions r = record { result = r; table = none; linked = partitions; requests = [] }

-- The firmware's check sums of the entries and of the header, `none` for its error: parameters.
module _ (entries_crc32 : List GptEntry → Option ℕ) (header_crc : GptHeader → Option ℕ) where
  -- Behind the layout: the check sums, and the table.
  unfoldable pub finish_table : DiskDev → List GptEntry → List DiskDev → List Request → Installed
  finish_table device entries ps before = elim (entries_crc32 entries) [
    | none ↦ record { result = negsuc 3; table = none; linked = ps; requests = before }
    | some e ↦
        let h : GptHeader = record (header_template device) { partition_entry_array_crc32 = e } in
        elim (header_crc h) [
          | none ↦ record { result = negsuc 4; table = none; linked = ps; requests = before }
          | some c ↦
              let header : GptHeader = record h { header_crc32 = c } in
              record {
                result = pos 0;
                table = some (header, entries);
                linked = ps;
                requests = before ++ table_requests device header entries;
              }
        ]
  ]

  -- With the user's confirmation, and whether the buffer of the table is allocated.
  unfoldable pub disk_install_partitions : DiskDev → List DiskDev → Bool → Bool → Bool → Installed
  disk_install_partitions device partitions add_gap confirmed allocated =
      let made = add_partitions device partitions add_gap in
      if has_flag device.dev_flags disk_flag_partition || ltb device.total_size (4 * gib)
      then refused partitions (negsuc 0)
      else if not confirmed
      then refused partitions (negsuc 1)
      else if not allocated
      then refused partitions (negsuc 2)
      else finish_table device made.0 made.1 (gap_requests device partitions add_gap)
