-- ===== src/Disk/Examples.antt =====
-- A disk of 512-byte blocks behind firmware that never fails, and an empty cache.
use light_loader.Common.{
  ℕ, ◌+◌, ◌*◌, ◌%◌, refl, true, false, ◌==◌, ◌≡◌, ◌<◌, ◌≤◌, pos, if◌then◌else◌, arith, ==_refl,
}
use light_loader.ByteDisk.{ByteDisk}
use light_loader.Disk.Entry.{Reliable}
use light_loader.Disk.Writes.{Writes, write-bytes}
use light_loader.Disk.Bytes.{Partition, IsReady, f_read, f_write, f_read-f_write, partition_disk}
use light_loader.Disk.{write, BlockIo, Cache, Device, cached_read, disk_init_cache, read}
use light_loader.Disk.Coherence.{Coherent, Ready}
use light_loader.Disk.Init.{disk_init_cache-read}
use light_loader.Disk.Lookup.{cached_read-Ready}
use light_loader.Disk.Access.{Reads, read-bytes}

abbrev sound_io : BlockIo
sound_io = record {
  Store = ℕ → ℕ → ℕ;
  contents = λ s b j. s b j;
  read_error = λ s b. false;
  write_error = λ s b. false;
  put = λ s b v c j. if c == b then v j else s c j;
  put_self = λ s b v j e. rw (==_refl b);
  put_ne = λ s b c v j e ne. ground arith;
}

abbrev empty_cache : Cache
empty_cache = record {
  allocated = λ i. true;
  buffer = λ i j. 0;
  block = λ i. 0;
  dirty = λ i. false;
  oldest = 0;
  usage = λ i. 0;
}

abbrev disk : Device sound_io
disk = record {
  first_sector = 34;
  sector_size = 512;
  effective_sector_size = 512;
  cache_writes = false;
  cache = empty_cache;
  store = λ b j. (b + j) % 256;
}

disk-Coherent : Coherent disk
disk-Coherent = record {
  allocated = λ i l. refl;
  oldest = omega arith;
  through = refl;
  agrees = λ i j l d. ground arith;
  unique = λ i k li lk di dk e. ground arith;
}

cached_read-Ready_example : Ready disk 5 (cached_read disk 5)
cached_read-Ready_example = cached_read-Ready disk 5 disk-Coherent (omega arith) refl

read-bytes_example : Reads disk (λ _. 0) 700 (100 + 34 * 512) 0 (read 701 disk (λ _. 0) 700 100)
read-bytes_example =
    read-bytes 701 disk (λ _. 0) 700 100
      (record { coherent = disk-Coherent; sector_pos = omega arith; reads = λ b. refl })
      (omega arith) (omega arith) (omega arith)

disk_init_cache-read_example :
    Coherent (disk_init_cache (λ _. true) (λ i j. 9) disk).0
    × Reads
        (disk_init_cache (λ _. true) (λ i j. 9) disk).0
        (λ _. 0)
        700
        (100 + 34 * 512)
        0
        (read 701 (disk_init_cache (λ _. true) (λ i j. 9) disk).0 (λ _. 0) 700 100)
disk_init_cache-read_example =
    disk_init_cache-read (λ _. true) (λ i j. 9) disk 701 (λ _. 0) 700 100 refl (λ i l. refl)
      (omega arith) (λ b. refl) (omega arith) (omega arith) (omega arith)

sound_io-Reliable : Reliable sound_io
sound_io-Reliable = record { reads = λ s b. refl; writes = λ s b. refl }

write-bytes_example :
    Writes disk (λ j. j % 7) 700 (100 + 34 * 512) 0 (write 701 disk (λ j. j % 7) 700 100)
write-bytes_example =
    write-bytes 701 disk (λ j. j % 7) 700 100 sound_io-Reliable disk-Coherent (omega arith)
      (omega arith) (omega arith) (omega arith)

abbrev partition : Partition
partition = record {
  first_sector = 34;
  effective_sector_size = 512;
  sector_size = 512;
  size = 1048576;
  sector_pos = omega arith;
  top = omega arith;
  word = omega arith;
}

disk-IsReady : IsReady sound_io sound_io-Reliable partition disk
disk-IsReady = record { coherent = disk-Coherent; first = refl; effective = refl; sector = refl }

f_read-f_write_example :
    ((f_write sound_io sound_io-Reliable partition disk (λ j. j % 7) 700 100).1 ≡ pos 0)
    × ((f_read sound_io sound_io-Reliable partition
          (f_write sound_io sound_io-Reliable partition disk (λ j. j % 7) 700 100).0
          (λ _. 0)
          700
          100).2
        ≡ pos 0)
    × ((j : ℕ)
        → j < 700
        → (f_read sound_io sound_io-Reliable partition
              (f_write sound_io sound_io-Reliable partition disk (λ j. j % 7) 700 100).0
              (λ _. 0)
              700
              100).1
            j
          ≡ j % 7)
    × ((j : ℕ)
        → 700 ≤ j
        → (f_read sound_io sound_io-Reliable partition
              (f_write sound_io sound_io-Reliable partition disk (λ j. j % 7) 700 100).0
              (λ _. 0)
              700
              100).1
            j
          ≡ 0)
f_read-f_write_example =
    f_read-f_write sound_io sound_io-Reliable partition disk (λ j. j % 7) (λ _. 0) 700 100
      disk-IsReady (omega arith)

-- The disk of bytes that the file systems see.
abbrev efi_disk : ByteDisk
efi_disk = partition_disk sound_io sound_io-Reliable partition
