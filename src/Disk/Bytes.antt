-- ===== src/Disk/Bytes.antt =====
-- The device of efi/lib/efidisk.c as a disk of bytes: over a firmware that does not fail, `__read` and
-- `__write` do what the file systems rely on.
use light_loader.Common.{
  ℕ, suc, ◌+◌, ◌*◌, ◌≤◌, ◌<◌, ◌≡◌, refl, ap, ◌∙◌, ◌⊎◌, inr, arith, Option, none, some, w32, w64, ℤ,
  pos, negsuc,
}
use light_loader.ByteDisk.{ByteDisk}
use light_loader.Disk.{BlockIo, Device, read, write}
use light_loader.Disk.Coherence.{Coherent}
use light_loader.Disk.Access.{disk_byte, disk_byte-SameDisk, Reads, read-bytes}
use light_loader.Disk.Entry.{Reliable, SameShape, SameDisk-SameShape}
use light_loader.Disk.Writes.{Writes, write-bytes}

-- The place of a partition, and how much of it is used.
pub record Partition : Type 0 where
  pub first_sector : ℕ
  pub effective_sector_size : ℕ
  pub sector_size : ℕ
  pub size : ℕ
  pub sector_pos : 0 < sector_size
  pub top : size + first_sector * effective_sector_size < w64
  pub word : size + first_sector * effective_sector_size ≤ w32 * sector_size

module _ {io : BlockIo} where
  -- The results of a run; without fuel the device is as it was.
  abbrev pub read_result :
      Device io → (ℕ → ℕ) → Option (Device io × (ℕ → ℕ) × ℤ) → Device io × (ℕ → ℕ) × ℤ
  read_result d b none = (d, b, negsuc 0)
  read_result d b (some r) = r

  abbrev pub write_result : Device io → Option (Device io × ℤ) → Device io × ℤ
  write_result d none = (d, negsuc 0)
  write_result d (some r) = r

module _ (io : BlockIo) (ok : Reliable io) (q : Partition) where
  -- A device for the partition, with a coherent cache.
  pub record IsReady (d : Device io) : Type 0 where
    pub coherent : Coherent d
    pub first : d.first_sector ≡ q.first_sector
    pub effective : d.effective_sector_size ≡ q.effective_sector_size
    pub sector : d.sector_size ≡ q.sector_size

  abbrev start : ℕ
  start = q.first_sector * q.effective_sector_size

  IsReady-after : (d d' : Device io) → IsReady d → Coherent d' → SameShape d d' → IsReady d'
  IsReady-after d d' s c t = record {
    coherent = c;
    first = t.first ∙ s.first;
    effective = t.effective ∙ s.effective;
    sector = t.sector ∙ s.sector;
  }

  reads :
      (d : Device io) (b : ℕ → ℕ) (size offset : ℕ)
      → IsReady d
      → offset + size ≤ q.size
      → Reads d b size (offset + start) 0 (read (suc size) d b size offset)
  reads d b size offset s le =
      let at : d.first_sector * d.effective_sector_size ≡ start =
        ap (λ x. x * d.effective_sector_size) s.first ∙ ap (λ x. q.first_sector * x) s.effective in
      rw (← at) (
        read-bytes (suc size) d b size offset
          (record {
            coherent = s.coherent;
            sector_pos = rw s.sector q.sector_pos;
            reads = λ k. ok.reads d.store k;
          })
          (omega (arith, q.top, at)) (rw s.sector (omega (arith, q.word, at))) (omega arith))

  writes :
      (d : Device io) (b : ℕ → ℕ) (size offset : ℕ)
      → IsReady d
      → offset + size ≤ q.size
      → Writes d b size (offset + start) 0 (write (suc size) d b size offset)
  writes d b size offset s le =
      let at : d.first_sector * d.effective_sector_size ≡ start =
        ap (λ x. x * d.effective_sector_size) s.first ∙ ap (λ x. q.first_sector * x) s.effective in
      rw (← at) (
        write-bytes (suc size) d b size offset ok s.coherent (rw s.sector q.sector_pos)
          (omega (arith, q.top, at)) (rw s.sector (omega (arith, q.word, at))) (omega arith))

  abbrev pub f_read : Device io → (ℕ → ℕ) → ℕ → ℕ → Device io × (ℕ → ℕ) × ℤ
  f_read d b size offset = read_result d b (read (suc size) d b size offset)

  abbrev pub f_write : Device io → (ℕ → ℕ) → ℕ → ℕ → Device io × ℤ
  f_write d b size offset = write_result d (write (suc size) d b size offset)

  -- What a caller relies on of a read.
  pub record ReadsBytes (d : Device io) (b : ℕ → ℕ) (size offset : ℕ) (r : Device io × (ℕ → ℕ) × ℤ)
      : Type 0 where
    pub zero_result : r.2 ≡ pos 0
    pub ready : IsReady r.0
    pub keeps : (a : ℕ) → disk_byte r.0 (a + start) ≡ disk_byte d (a + start)
    pub inside : (j : ℕ) → j < size → r.1 j ≡ disk_byte d (offset + j + start)
    pub outside : (j : ℕ) → size ≤ j → r.1 j ≡ b j

  -- What a caller relies on of a write.
  pub record WritesBytes (d : Device io) (b : ℕ → ℕ) (size offset : ℕ) (r : Device io × ℤ)
      : Type 0 where
    pub zero_result : r.1 ≡ pos 0
    pub ready : IsReady r.0
    pub inside : (j : ℕ) → j < size → disk_byte r.0 (offset + j + start) ≡ b j
    pub outside :
        (a : ℕ)
        → (a < offset) ⊎ (offset + size ≤ a)
        → disk_byte r.0 (a + start) ≡ disk_byte d (a + start)

  read-result :
      (d : Device io) (b : ℕ → ℕ) (size offset : ℕ) (run : Option (Device io × (ℕ → ℕ) × ℤ))
      → IsReady d
      → Reads d b size (offset + start) 0 run
      → ReadsBytes d b size offset (read_result d b run)
  read-result d b size offset run s (d', out, e, h) = rw e (record {
    zero_result = refl;
    ready = IsReady-after d d' s h.coherent (SameDisk-SameShape h.same);
    keeps = λ a. disk_byte-SameDisk d d' (a + start) h.same;
    inside = λ j lt. h.inside j (omega arith) lt ∙ ap (disk_byte d) (omega arith);
    outside = λ j le. h.outside j (inr le);
  })

  write-result :
      (d : Device io) (b : ℕ → ℕ) (size offset : ℕ) (run : Option (Device io × ℤ))
      → IsReady d
      → Writes d b size (offset + start) 0 run
      → WritesBytes d b size offset (write_result d run)
  write-result d b size offset run s (d', e, h) = rw e (record {
    zero_result = refl;
    ready = IsReady-after d d' s h.coherent h.shape;
    inside = λ j lt. ap (disk_byte d') (omega arith) ∙ h.inside j (omega arith) lt;
    outside = λ a o. h.outside (a + start) (grind arith);
  })

  pub f_read-ReadsBytes :
      (d : Device io) (b : ℕ → ℕ) (size offset : ℕ)
      → IsReady d
      → offset + size ≤ q.size
      → ReadsBytes d b size offset (f_read d b size offset)
  f_read-ReadsBytes d b size offset s le =
      read-result d b size offset _ s (reads d b size offset s le)

  pub f_write-WritesBytes :
      (d : Device io) (b : ℕ → ℕ) (size offset : ℕ)
      → IsReady d
      → offset + size ≤ q.size
      → WritesBytes d b size offset (f_write d b size offset)
  f_write-WritesBytes d b size offset s le =
      write-result d b size offset _ s (writes d b size offset s le)

  -- The device of a partition, on a reliable firmware, is a disk of bytes: those of the partition.
  abbrev pub partition_disk : ByteDisk
  partition_disk = record {
    Dev = Device io;
    byte = λ d a. disk_byte d (a + start);
    reach = q.size;
    Sound = IsReady;
    f_read = f_read;
    f_write = f_write;
    read_ok = λ d b size offset s le. (f_read-ReadsBytes d b size offset s le).zero_result;
    read_inside = λ d b size offset j s le lt. (f_read-ReadsBytes d b size offset s le).inside j lt;
    read_outside = λ d b size offset j s le o. (f_read-ReadsBytes d b size offset s le).outside j o;
    read_sound = λ d b size offset s le. (f_read-ReadsBytes d b size offset s le).ready;
    read_keeps = λ d b size offset a s le. (f_read-ReadsBytes d b size offset s le).keeps a;
    write_ok = λ d b size offset s le. (f_write-WritesBytes d b size offset s le).zero_result;
    write_sound = λ d b size offset s le. (f_write-WritesBytes d b size offset s le).ready;
    write_inside =
        λ d b size offset j s le lt. (f_write-WritesBytes d b size offset s le).inside j lt;
    write_outside =
        λ d b size offset a s le o. (f_write-WritesBytes d b size offset s le).outside a o;
  }

  -- For a device of the partition that is ready, and bytes that lie within it: a write returns 0, a read
  -- of the same bytes then returns 0, and gives what was written; the rest of the buffer stays.
  pub f_read-f_write :
      (d : Device io) (b b' : ℕ → ℕ) (size offset : ℕ)
      → IsReady d
      → offset + size ≤ q.size
      → ((f_write d b size offset).1 ≡ pos 0)
        × ((f_read (f_write d b size offset).0 b' size offset).2 ≡ pos 0)
        × ((j : ℕ) → j < size → (f_read (f_write d b size offset).0 b' size offset).1 j ≡ b j)
        × ((j : ℕ) → size ≤ j → (f_read (f_write d b size offset).0 b' size offset).1 j ≡ b' j)
  f_read-f_write d b b' size offset s le =
      let w = f_write-WritesBytes d b size offset s le in
      let r = f_read-ReadsBytes (f_write d b size offset).0 b' size offset w.ready le in
      (w.zero_result, r.zero_result, (λ j lt. r.inside j lt ∙ w.inside j lt), r.outside)
