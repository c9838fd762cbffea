-- ===== src/Disk/Access.antt =====
-- Byte access over the block cache: `__read` and `__write` are reads and writes of the disk's bytes.
use light_loader.Common.{
  ℕ, zero, suc, ◌+◌, ◌-◌, ◌*◌, ◌/◌, ◌%◌, ◌≤◌, ◌<◌, ◌≡◌, refl, ap, ◌∙◌, ◌⊎◌, inl, inr, false, leb,
  arith, Bool-cases, lt→ltb, ge→ltb, le→leb, lt→leb_false, lt→==_false, le-or-lt, w32, w64, add64,
  Option, some, ℤ, pos,
}
use native.Mathlib.Nat.{mod-lt, div-lt_iff_lt-mul}
use light_loader.Disk.{BlockIo, Device, cached_read, copy_range, chunk, read_loop, read}
use light_loader.Disk.Select.{HoldsBlock}
use light_loader.Disk.Coherence.{Coherent, SameDisk}
use light_loader.Disk.Lookup.{cached_read-Ready}

-- Within a block, the block number stays and the offset grows.
pub same_block :
    (at k ss : ℕ)
    → 0 < ss
    → at % ss + k < ss
    → ((at + k) / ss ≡ at / ss) × ((at + k) % ss ≡ at % ss + k)
same_block at k ss p h = grind arith

pub chunk_bounds :
    (size current ss delta : ℕ)
    → current < size
    → delta < ss
    → (0 < chunk size current ss delta)
      × (delta + chunk size current ss delta ≤ ss)
      × (current + chunk size current ss delta ≤ size)
unfolding chunk
chunk_bounds size current ss delta lt d = ground arith

pub copy_range-in :
    (dst src : ℕ → ℕ) (to from n j : ℕ)
    → to ≤ j
    → j < to + n
    → copy_range dst to src from n j ≡ src (from + (j - to))
unfolding copy_range
copy_range-in dst src to from n j lo hi = rw (le→leb to j lo, lt→ltb j (to + n) hi)

pub copy_range-out :
    (dst src : ℕ → ℕ) (to from n j : ℕ)
    → (j < to) ⊎ (to + n ≤ j)
    → copy_range dst to src from n j ≡ dst j
unfolding copy_range
copy_range-out dst src to from n j (inl lt) = rw (lt→leb_false to j lt)
copy_range-out dst src to from n j (inr ge) = elim (Bool-cases (leb to j)) [
  | inl a ↦ rw (a, ge→ltb j (to + n) ge)
  | inr a ↦ rw a
]

module _ {io : BlockIo} where
  -- Byte `a` of the disk.
  unfoldable pub disk_byte : Device io → ℕ → ℕ
  disk_byte dev a = io.contents dev.store (a / dev.sector_size) (a % dev.sector_size)

  -- The cache is coherent, and the firmware reads and writes without errors.
  pub record Working (dev : Device io) : Type 0 where
    pub coherent : Coherent dev
    pub sector_pos : 0 < dev.sector_size
    pub reads : (b : ℕ) → io.read_error dev.store b ≡ false

  pub disk_byte-SameDisk :
      (dev dev' : Device io) (a : ℕ) → SameDisk dev dev' → disk_byte dev' a ≡ disk_byte dev a
  unfolding disk_byte
  disk_byte-SameDisk dev dev' a s = rw (s.store, s.sector)

  pub SameDisk-trans : {a b c : Device io} → SameDisk a b → SameDisk b c → SameDisk a c
  SameDisk-trans s t = record {
    store = t.store ∙ s.store;
    first = t.first ∙ s.first;
    sector = t.sector ∙ s.sector;
    effective = t.effective ∙ s.effective;
    writes = t.writes ∙ s.writes;
  }

  -- The buffer from `current` to `size` holds the disk's bytes from `offset + current` on.
  pub record ReadDone (dev dev' : Device io) (buffer out : ℕ → ℕ) (size offset current : ℕ)
      : Type 0 where
    pub coherent : Coherent dev'
    pub same : SameDisk dev dev'
    pub inside : (j : ℕ) → current ≤ j → j < size → out j ≡ disk_byte dev (offset + j)
    pub outside : (j : ℕ) → (j < current) ⊎ (size ≤ j) → out j ≡ buffer j

  abbrev pub Reads : Device io → (ℕ → ℕ) → ℕ → ℕ → ℕ → Option (Device io × (ℕ → ℕ) × ℤ) → Type 0
  Reads dev buffer size offset current run =
      (dev' : Device io) × (out : ℕ → ℕ) × (run ≡ some (dev', out, pos 0))
      × ReadDone dev dev' buffer out size offset current

  -- The bytes that one entry gives.
  copied-byte :
      (dev dev' : Device io) (buffer : ℕ → ℕ) (at idx n current j : ℕ)
      → 0 < dev.sector_size
      → Coherent dev'
      → idx < 8
      → HoldsBlock dev'.cache (at / dev.sector_size) idx
      → SameDisk dev dev'
      → at % dev.sector_size + n ≤ dev.sector_size
      → current ≤ j
      → j < current + n
      → copy_range buffer current (dev'.cache.buffer idx) (at % dev.sector_size) n j
        ≡ disk_byte dev (at + (j - current))
  unfolding disk_byte
  copied-byte dev dev' buffer at idx n current j p c lt (used, holds) s fits lo hi =
      let (q, r) = same_block at (j - current) dev.sector_size p (omega arith) in
      copy_range-in buffer _ current _ n j lo hi
      ∙ c.agrees idx (at % dev.sector_size + (j - current)) lt used
      ∙ rw (s.store, holds, disk_byte, q, r) refl

  Working-after :
      {dev dev' : Device io} → Working dev → Coherent dev' → SameDisk dev dev' → Working dev'
  Working-after w c s = record {
    coherent = c;
    sector_pos = rw s.sector w.sector_pos;
    reads = λ b. ap (λ t. io.read_error t b) s.store ∙ w.reads b;
  }

  pub block-lt :
      (dev : Device io) (at : ℕ)
      → 0 < dev.sector_size
      → at < w32 * dev.sector_size
      → at / dev.sector_size < w32
  block-lt dev at p lt = (div-lt_iff_lt-mul p).1 lt

  -- One block is read, and the rest of the loop reads what follows.
  read_round :
      (dev dev' : Device io) (buffer : ℕ → ℕ) (idx n size offset current : ℕ)
      (run : Option (Device io × (ℕ → ℕ) × ℤ))
      → 0 < dev.sector_size
      → Coherent dev'
      → idx < 8
      → HoldsBlock dev'.cache ((offset + current) / dev.sector_size) idx
      → SameDisk dev dev'
      → (offset + current) % dev.sector_size + n ≤ dev.sector_size
      → current + n ≤ size
      → Reads dev'
          (copy_range buffer current
            (dev'.cache.buffer idx)
            ((offset + current) % dev.sector_size)
            n)
          size
          offset
          (current + n)
          run
      → Reads dev buffer size offset current run
  read_round dev dev' buffer idx n size offset current run p c lt holds s fits le
        (dev2, out, e, d) =
      (
        dev2,
        out,
        e,
        record {
          coherent = d.coherent;
          same = SameDisk-trans s d.same;
          inside = λ j lo hi. elim (le-or-lt (current + n) j) [
            | inl far ↦ d.inside j far hi ∙ disk_byte-SameDisk dev dev' (offset + j) s
            | inr near ↦
                let at : offset + current + (j - current) ≡ offset + j = omega arith in
                d.outside j (inl near)
                ∙ copied-byte dev dev' buffer (offset + current) idx n current j p c lt holds s fits
                    lo near
                ∙ ap (disk_byte dev) at
          ];
          outside = λ j o.
              d.outside j (grind arith) ∙ copy_range-out buffer _ current _ n j (grind arith);
        },
      )

  read_loop-Reads :
      (fuel : ℕ) (dev : Device io) (buffer : ℕ → ℕ) (size offset current : ℕ)
      → Working dev
      → offset + size < w64
      → offset + size ≤ w32 * dev.sector_size
      → current ≤ size
      → size - current < fuel
      → Reads dev buffer size offset current (read_loop fuel dev buffer size offset current)
  unfolding read_loop
  read_loop-Reads zero dev buffer size offset current w top word le f = absurd (omega arith)
  read_loop-Reads (suc fuel) dev buffer size offset current w top word le f =
      elim (le-or-lt size current) [
        | inl done ↦ (
          dev,
          buffer,
          rw (ge→ltb current size done),
          record {
            coherent = w.coherent;
            same = record {
              store = refl;
              first = refl;
              sector = refl;
              effective = refl;
              writes = refl;
            };
            inside = λ j lo hi. absurd (omega arith);
            outside = λ j o. refl;
          },
        )
        | inr more ↦
            let at : add64 offset current ≡ offset + current = omega arith in
            let b = (offset + current) / dev.sector_size in
            let delta = (offset + current) % dev.sector_size in
            let n = chunk size current dev.sector_size delta in
            let (pos_n, fits, within) =
              chunk_bounds size current dev.sector_size delta more
                (mod-lt (offset + current) w.sector_pos) in
            let r =
              cached_read-Ready dev b w.coherent
                (block-lt dev (offset + current) w.sector_pos (omega arith)) (w.reads b) in
            let got = cached_read dev b in
            rw (lt→ltb current size more, at, lt→==_false got.1 0xff (omega (arith, r.index-lt)))
              (read_round dev got.0 buffer got.1 n size offset current _ w.sector_pos r.coherent
                r.index-lt r.holds r.same fits within
                (read_loop-Reads fuel got.0 _ size offset (current + n)
                  (Working-after w r.coherent r.same) top (rw r.same.sector word) within
                  (omega arith)))
      ]

  -- With a coherent cache and no read errors, `__read` returns 0 and the `size` bytes of the disk from
  -- the partition's start plus `offset`, touches no other byte of the buffer, and keeps the disk and
  -- the cache's coherence. Conditions: no address wraps, block numbers fit 32 bits, and the fuel is
  -- more than `size`.
  pub read-bytes :
      (fuel : ℕ) (dev : Device io) (buffer : ℕ → ℕ) (size offset : ℕ)
      → Working dev
      → offset + dev.first_sector * dev.effective_sector_size + size < w64
      → offset + dev.first_sector * dev.effective_sector_size + size ≤ w32 * dev.sector_size
      → size < fuel
      → Reads dev buffer size
          (offset + dev.first_sector * dev.effective_sector_size)
          0
          (read fuel dev buffer size offset)
  unfolding read
  read-bytes fuel dev buffer size offset w top word f =
      let start : add64 offset (dev.first_sector * dev.effective_sector_size % w64)
          ≡ offset + dev.first_sector * dev.effective_sector_size =
        omega arith in
      rw start (
        read_loop-Reads fuel dev buffer size (offset + dev.first_sector * dev.effective_sector_size)
          0 w top word (omega arith) (omega arith))
