-- ===== src/ByteDisk.antt =====
-- What the file systems use of a disk device: `f_read` and `f_write` of `disk_dev_t`
-- (common/include/disk.h), and what they rely on. `reach` is the end of the bytes that can be
-- accessed. Disk/Bytes fills the record with the device of efi/lib/efidisk.c.
pub mod InMemory
use light_loader.Common.{ℕ, ◌+◌, ◌≤◌, ◌<◌, ◌≡◌, ◌⊎◌, ℤ, pos}
use light_loader.Common.Bytes.{Mem}

pub record ByteDisk : Type 1 where
  pub Dev : Type 0
  pub byte : Dev → Mem
  pub reach : ℕ
  pub Sound : Dev → Type 0
  -- The device, the buffer behind the read, and the result.
  pub f_read : Dev → Mem → ℕ → ℕ → Dev × Mem × ℤ
  pub f_write : Dev → Mem → ℕ → ℕ → Dev × ℤ
  pub read_ok :
      (d : Dev) (b : Mem) (size offset : ℕ)
      → Sound d
      → offset + size ≤ reach
      → (f_read d b size offset).2 ≡ pos 0
  pub read_inside :
      (d : Dev) (b : Mem) (size offset j : ℕ)
      → Sound d
      → offset + size ≤ reach
      → j < size
      → (f_read d b size offset).1 j ≡ byte d (offset + j)
  pub read_outside :
      (d : Dev) (b : Mem) (size offset j : ℕ)
      → Sound d
      → offset + size ≤ reach
      → size ≤ j
      → (f_read d b size offset).1 j ≡ b j
  pub read_sound :
      (d : Dev) (b : Mem) (size offset : ℕ)
      → Sound d
      → offset + size ≤ reach
      → Sound (f_read d b size offset).0
  pub read_keeps :
      (d : Dev) (b : Mem) (size offset a : ℕ)
      → Sound d
      → offset + size ≤ reach
      → byte (f_read d b size offset).0 a ≡ byte d a
  pub write_ok :
      (d : Dev) (b : Mem) (size offset : ℕ)
      → Sound d
      → offset + size ≤ reach
      → (f_write d b size offset).1 ≡ pos 0
  pub write_sound :
      (d : Dev) (b : Mem) (size offset : ℕ)
      → Sound d
      → offset + size ≤ reach
      → Sound (f_write d b size offset).0
  pub write_inside :
      (d : Dev) (b : Mem) (size offset j : ℕ)
      → Sound d
      → offset + size ≤ reach
      → j < size
      → byte (f_write d b size offset).0 (offset + j) ≡ b j
  pub write_outside :
      (d : Dev) (b : Mem) (size offset a : ℕ)
      → Sound d
      → offset + size ≤ reach
      → (a < offset) ⊎ (offset + size ≤ a)
      → byte (f_write d b size offset).0 a ≡ byte d a
