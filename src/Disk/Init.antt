-- ===== src/Disk/Init.antt =====
-- The cache as disk_init_cache sets it up.
use light_loader.Common.{ℕ, ◌<◌, ◌≤◌, ◌≡◌, ◌+◌, ◌*◌, Bool, true, false, arith, w32, w64}
use light_loader.Disk.{BlockIo, Device, disk_init_cache, read}
use light_loader.Disk.Coherence.{Coherent}
use light_loader.Disk.Access.{Reads, read-bytes}

-- All buffers are served on a device that does not hold writes back.
pub disk_init_cache-Coherent :
    {io : BlockIo} (served : ℕ → Bool) (fresh : ℕ → ℕ → ℕ) (dev : Device io)
    → dev.cache_writes ≡ false
    → ((i : ℕ) → i < 8 → served i ≡ true)
    → Coherent (disk_init_cache served fresh dev).0
unfolding disk_init_cache
disk_init_cache-Coherent served fresh dev through all = record {
  allocated = all;
  oldest = omega arith;
  through = through;
  agrees = λ i j l d. absurd (ground (arith, d));
  unique = λ i k li lk di dk e. absurd (ground (arith, di));
}

-- On a device that does not hold writes back and reads without errors, with sectors of a byte at
-- least, if all eight buffers can be allocated: whatever the buffers and the entries' block numbers
-- hold, the new cache is coherent with the disk, and a first read through it of any size and
-- alignment, at addresses that do not wrap and blocks whose numbers fit 32 bits, in more rounds than
-- it has bytes, returns 0, gives the disk's bytes, keeps the rest of the buffer and the disk, and
-- leaves the cache coherent.
pub disk_init_cache-read :
    {io : BlockIo} (served : ℕ → Bool) (fresh : ℕ → ℕ → ℕ) (dev : Device io) (fuel : ℕ)
    (buffer : ℕ → ℕ) (size offset : ℕ)
    → dev.cache_writes ≡ false
    → ((i : ℕ) → i < 8 → served i ≡ true)
    → 0 < dev.sector_size
    → ((b : ℕ) → io.read_error dev.store b ≡ false)
    → offset + dev.first_sector * dev.effective_sector_size + size < w64
    → offset + dev.first_sector * dev.effective_sector_size + size ≤ w32 * dev.sector_size
    → size < fuel
    → Coherent (disk_init_cache served fresh dev).0
      × Reads
          (disk_init_cache served fresh dev).0
          buffer
          size
          (offset + dev.first_sector * dev.effective_sector_size)
          0
          (read fuel (disk_init_cache served fresh dev).0 buffer size offset)
unfolding disk_init_cache
disk_init_cache-read served fresh dev fuel buffer size offset through all pos good top word f =
    let coherent = disk_init_cache-Coherent served fresh dev through all in
    (
      coherent,
      read-bytes fuel (disk_init_cache served fresh dev).0 buffer size offset
          (record { coherent = coherent; sector_pos = pos; reads = good }) top word f,
    )
