-- ===== src/Gpt/Examples.antt =====
-- A disk of 8 GiB with sectors of 512 bytes.
use light_loader.Gpt.{DiskDev}

abbrev disk : DiskDev
disk = record {
  first_sector = 0;
  total_size = 0x200000000;
  sector_size = 512;
  effective_sector_size = 512;
  total_sectors = 0x1000000;
  optimal_transfer_factor = 1;
  dev_flags = 0x40;
}
