-- ===== src/Disk/Writes.antt =====
-- Byte writes over the block cache: `__write` changes the bytes that it is given, and no others.
use light_loader.Common.{
  ℕ, zero, suc, ◌+◌, ◌-◌, ◌*◌, ◌/◌, ◌%◌, ◌≤◌, ◌<◌, ◌≡◌, refl, ap, sym, ◌∙◌, ◌⊎◌, inl, inr, false,
  ◌==◌, arith, lt→ltb, ge→ltb, lt→==_false, le-or-lt, w32, w64, add64, Option, some, ℤ, pos,
}
use native.Mathlib.Nat.{mod-lt}
use light_loader.Disk.{BlockIo, Device, cached_read, chunk, write_entry, write_loop, write}
use light_loader.Disk.Coherence.{Coherent}
use light_loader.Disk.Lookup.{cached_read-Ready}
use light_loader.Disk.Access.{chunk_bounds, disk_byte, disk_byte-SameDisk, block-lt}
use light_loader.Disk.Entry.{
  Reliable, SameShape, SameShape-trans, write_entry-Coherent, write_entry_ok, entry_sector,
  SameShape-entry, write_entry-inside, write_entry-outside, SameDisk-SameShape,
}

module _ {io : BlockIo} where
  -- The disk's bytes from `offset + current` up to `offset + size` are the buffer's, all others are as
  -- they were.
  pub record WriteDone (dev dev' : Device io) (buffer : ℕ → ℕ) (size offset current : ℕ)
      : Type 0 where
    pub coherent : Coherent dev'
    pub shape : SameShape dev dev'
    pub inside : (j : ℕ) → current ≤ j → j < size → disk_byte dev' (offset + j) ≡ buffer j
    pub outside :
        (a : ℕ) → (a < offset + current) ⊎ (offset + size ≤ a) → disk_byte dev' a ≡ disk_byte dev a

  abbrev pub Writes : Device io → (ℕ → ℕ) → ℕ → ℕ → ℕ → Option (Device io × ℤ) → Type 0
  Writes dev buffer size offset current run =
      (dev' : Device io) × (run ≡ some (dev', pos 0))
      × WriteDone dev dev' buffer size offset current

  write_round :
      (dev dev' : Device io) (buffer : ℕ → ℕ) (n size offset current : ℕ)
      (run : Option (Device io × ℤ))
      → SameShape dev dev'
      → current + n ≤ size
      → ((k : ℕ) → k < n → disk_byte dev' (offset + current + k) ≡ buffer (current + k))
      → ((a : ℕ)
          → (a < offset + current) ⊎ (offset + current + n ≤ a)
          → disk_byte dev' a ≡ disk_byte dev a)
      → Writes dev' buffer size offset (current + n) run
      → Writes dev buffer size offset current run
  write_round dev dev' buffer n size offset current run s le ins out (dev2, e, d) = (
    dev2,
    e,
    record {
      coherent = d.coherent;
      shape = SameShape-trans s d.shape;
      inside = λ j lo hi. elim (le-or-lt (current + n) j) [
        | inl far ↦ d.inside j far hi
        | inr near ↦
            let at : offset + current + (j - current) ≡ offset + j = omega arith in
            let back : current + (j - current) ≡ j = omega arith in
            d.outside (offset + j) (inl (omega arith))
            ∙ ap (disk_byte dev') (sym at)
            ∙ ins (j - current) (omega arith)
            ∙ ap buffer back
      ];
      outside = λ a o. d.outside a (grind arith) ∙ out a (grind arith);
    },
  )

  write_loop-Writes :
      (fuel : ℕ) (dev : Device io) (buffer : ℕ → ℕ) (size offset current : ℕ)
      → Reliable io
      → Coherent dev
      → 0 < dev.sector_size
      → offset + size < w64
      → offset + size ≤ w32 * dev.sector_size
      → current ≤ size
      → size - current < fuel
      → Writes dev buffer size offset current (write_loop fuel dev buffer size offset current)
  unfolding write_loop
  write_loop-Writes zero dev buffer size offset current ok c p top word le f = absurd (omega arith)
  write_loop-Writes (suc fuel) dev buffer size offset current ok c p top word le f =
      elim (le-or-lt size current) [
        | inl done ↦ (
          dev,
          rw (ge→ltb current size done) refl,
          record {
            coherent = c;
            shape = record { first = refl; sector = refl; effective = refl };
            inside = λ j lo hi. absurd (omega arith);
            outside = λ a o. refl;
          },
        )
        | inr more ↦
            let at : add64 offset current ≡ offset + current = omega arith in
            let b = (offset + current) / dev.sector_size in
            let delta = (offset + current) % dev.sector_size in
            let n = chunk size current dev.sector_size delta in
            let (pos_n, fits, within) =
              chunk_bounds size current dev.sector_size delta more (mod-lt (offset + current) p) in
            let r =
              cached_read-Ready dev b c (block-lt dev (offset + current) p (omega arith))
                (ok.reads dev.store b) in
            let got = cached_read dev b in
            let put = (write_entry got.0 got.1 b buffer current delta n).0 in
            let low : got.1 == 0xff ≡ false = lt→==_false got.1 0xff (omega (arith, r.index-lt)) in
            let good = ok.writes got.0.store b in
            rw
              (
                lt→ltb current size more,
                at,
                low,
                write_entry_ok got.0 got.1 b buffer current delta n good,
              )
              (write_round dev put buffer n size offset current _
                (SameShape-entry dev got.0 got.1 b buffer current delta n
                  (SameDisk-SameShape r.same))
                within
                (λ k lt.
                  write_entry-inside got.0 dev.sector_size got.1 (offset + current) buffer current n
                    k r.same.sector p good fits lt)
                (λ a o.
                  write_entry-outside got.0 dev.sector_size got.1 (offset + current) buffer current
                    n a r.same.sector r.coherent r.index-lt r.holds good o
                  ∙ disk_byte-SameDisk dev got.0 a r.same)
                (write_loop-Writes fuel put buffer size offset (current + n) ok
                  (write_entry-Coherent got.0 got.1 b buffer current delta n r.coherent r.index-lt
                    r.holds good)
                  (rw (entry_sector got.0 got.1 b buffer current delta n, r.same.sector) p) top
                  (rw (entry_sector got.0 got.1 b buffer current delta n, r.same.sector) word)
                  within (omega arith)))
      ]

  -- On a reliable disk with a coherent cache, `__write` returns 0 and puts the `size` bytes of the buffer
  -- on the disk, from the partition's start plus `offset` on; every other byte of the disk stays, and so
  -- does the cache's coherence. Conditions: no address wraps, block numbers fit 32 bits, and the fuel is
  -- more than `size`.
  pub write-bytes :
      (fuel : ℕ) (dev : Device io) (buffer : ℕ → ℕ) (size offset : ℕ)
      → Reliable io
      → Coherent dev
      → 0 < dev.sector_size
      → offset + dev.first_sector * dev.effective_sector_size + size < w64
      → offset + dev.first_sector * dev.effective_sector_size + size ≤ w32 * dev.sector_size
      → size < fuel
      → Writes dev buffer size
          (offset + dev.first_sector * dev.effective_sector_size)
          0
          (write fuel dev buffer size offset)
  unfolding write
  write-bytes fuel dev buffer size offset ok c p top word f =
      let start : add64 offset (dev.first_sector * dev.effective_sector_size % w64)
          ≡ offset + dev.first_sector * dev.effective_sector_size =
        omega arith in
      rw start (
        write_loop-Writes fuel dev buffer size
          (offset + dev.first_sector * dev.effective_sector_size) 0 ok c p top word (omega arith)
          (omega arith))
