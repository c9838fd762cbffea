-- ===== src/Fat/Volume/Bpb.antt =====
-- The parameter block of a volume, `fat_bpb_t` (common/include/fs/fat/fat32.h): its 512 bytes, and the
-- offset of each field's first byte.
use light_loader.Common.{ℕ}

abbrev pub oem_name : ℕ
oem_name = 3

abbrev pub bytes_per_sector : ℕ
bytes_per_sector = 11

abbrev pub sectors_per_cluster : ℕ
sectors_per_cluster = 13

abbrev pub reserved_sector_count : ℕ
reserved_sector_count = 14

abbrev pub fat_num : ℕ
fat_num = 16

abbrev pub sector_num_fat32 : ℕ
sector_num_fat32 = 32

abbrev pub sectors_num_per_fat : ℕ
sectors_num_per_fat = 36

abbrev pub root_cluster : ℕ
root_cluster = 44

abbrev pub volume_id : ℕ
volume_id = 67

abbrev pub system_type : ℕ
system_type = 82
