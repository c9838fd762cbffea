-- ===== src/Disk.antt =====
-- Disk devices: the block cache of common/disk.c, and the byte access over it of efi/lib/efidisk.c.
pub mod Select
pub mod Coherence
pub mod Lookup
pub mod Access
pub mod Entry
pub mod Writes
pub mod Bytes
pub mod Init
mod Examples
use light_loader.Common.{
  ℕ, zero, suc, ◌+◌, ◌-◌, ◌*◌, ◌/◌, ◌%◌, ◌≡◌, ◌≢◌, ◌==◌, ltb, leb, if◌then◌else◌, Bool, true, false,
  not, ◌&&◌, Option, none, some, w8, w32, w64, add64, sub64, ℤ, pos, negsuc,
}

-- The firmware's block protocol, behind `f_bread` and `f_bwrite`: a parameter of the model. A read
-- gives the block's contents; a write without an error changes one block.
pub record BlockIo : Type 1 where
  pub Store : Type 0
  pub contents : Store → ℕ → ℕ → ℕ
  pub read_error : Store → ℕ → Bool
  pub write_error : Store → ℕ → Bool
  pub put : Store → ℕ → (ℕ → ℕ) → Store
  pub put_self :
      (s : Store) (b : ℕ) (v : ℕ → ℕ) (j : ℕ)
      → write_error s b ≡ false
      → contents (put s b v) b j ≡ v j
  pub put_ne :
      (s : Store) (b c : ℕ) (v : ℕ → ℕ) (j : ℕ)
      → write_error s b ≡ false
      → c ≢ b
      → contents (put s b v) c j ≡ contents s c j

-- The `cache` of `disk_dev_t`: eight entries, by index. `dirty i` is bit `i` of
-- `cache_dirty_flags`, and `buffer i` what `cache_ptr[i]` points to.
pub record Cache : Type 0 where
  pub allocated : ℕ → Bool
  pub buffer : ℕ → ℕ → ℕ
  pub block : ℕ → ℕ
  pub dirty : ℕ → Bool
  pub oldest : ℕ
  pub usage : ℕ → ℕ

unfoldable pub update {ℓ} : {A : Type ℓ} → (ℕ → A) → ℕ → A → ℕ → A
update f i v j = if j == i then v else f j

-- The first loop of `disk_select_cache`: `(true, i)` is an early return of `i`, and `(false, p)`
-- leaves `preferred_cache_idx` at `p`.
unfoldable pub scan_loop : ℕ → Cache → ℕ → ℕ → ℕ → Bool × ℕ
scan_loop zero c b i preferred = (false, preferred)
scan_loop (suc n) c b i preferred =
    let next = scan_loop n c b (i + 1) preferred in
    let free = scan_loop n c b (i + 1) i in
    if not (c.dirty i) then free else if c.block i == b then (true, i) else next

-- The second loop: the least used entry, as (lower_count, preferred_cache_idx).
unfoldable pub lowest_loop : ℕ → Cache → ℕ → ℕ → ℕ → ℕ → ℕ × ℕ
lowest_loop zero c i lowest lower preferred = (lower, preferred)
lowest_loop (suc n) c i lowest lower preferred =
    let next = lowest_loop n c (i + 1) lowest lower preferred in
    let taken = lowest_loop n c (i + 1) (c.usage i) ((lower + 1) % w8) i in
    if ltb (c.usage i) lowest then taken else next

-- Behind the second loop: its choice, or the oldest entry.
unfoldable pub pick_used : Cache → ℕ × ℕ → Cache × ℕ
pick_used c (lower, preferred) =
    if not (lower == 0)
    then (c, preferred)
    else (record c { oldest = (c.oldest + 1) % 7 }, c.oldest)

unfoldable pub pick : Cache → Bool × ℕ → Cache × ℕ
pick c (true, i) = (c, i)
pick c (false, preferred) =
    if not (preferred == 0xff)
    then (c, preferred)
    else pick_used c (lowest_loop 8 c 0 0xff 0 preferred)

unfoldable pub disk_select_cache : Cache → ℕ → Cache × ℕ
disk_select_cache c b = pick c (scan_loop 8 c b 0 0xff)

-- `memcpy` between two arrays: `n` bytes of `src` from `from` on go to `dst` from `to` on.
unfoldable pub copy_range : (ℕ → ℕ) → ℕ → (ℕ → ℕ) → ℕ → ℕ → ℕ → ℕ
copy_range dst to src from n j = if leb to j && ltb j (to + n) then src (from + (j - to)) else dst j

-- The part of a request that lies in one block.
unfoldable pub chunk : ℕ → ℕ → ℕ → ℕ → ℕ
chunk size current lba_size delta =
    if ltb (lba_size - delta) (size - current) then lba_size - delta else size - current

module _ (io : BlockIo) where
  -- `disk_dev_t`, as far as its reads and writes use it.
  pub record Device : Type 0 where
    pub first_sector : ℕ
    pub sector_size : ℕ
    pub effective_sector_size : ℕ
    pub cache_writes : Bool
    pub cache : Cache
    pub store : io.Store

module _ {io : BlockIo} where
  -- `disk_init_cache`: `served` says which of the eight buffers are allocated, and `fresh` what lies in
  -- them. The numbers of blocks and the counts of the entries stay as they are.
  unfoldable pub disk_init_cache : (ℕ → Bool) → (ℕ → ℕ → ℕ) → Device io → Device io × ℤ
  disk_init_cache served fresh dev = (
    record dev {
      cache = record dev.cache {
        oldest = 0;
        dirty = λ _. false;
        allocated = served;
        buffer = fresh;
      };
    },
    pos 0,
  )

  -- What `disk_clear_cache` does to entry `i`: a write back, whose result is not looked at, and the
  -- entry's reset.
  unfoldable pub clear_entry : Device io → ℕ → Device io
  clear_entry dev i =
      let c = dev.cache in
      let flushed = io.put dev.store (c.block i) (c.buffer i) in
      record dev {
        store =
            if dev.cache_writes
              && c.dirty i
              && c.allocated i
              && not (io.write_error dev.store (c.block i))
            then flushed
            else dev.store;
        cache = record c {
          dirty = update c.dirty i false;
          usage = update c.usage i 0;
          block = update c.block i 0;
        };
      }

  unfoldable pub clear_loop : ℕ → Device io → ℕ → ℕ → Device io × ℤ
  clear_loop zero dev b i = (dev, negsuc 0)
  clear_loop (suc n) dev b i =
      let next = clear_loop n dev b (i + 1) in
      if not (dev.cache.block i == b) then next else (clear_entry dev i, pos 0)

  unfoldable pub disk_clear_cache : Device io → ℕ → Device io × ℤ
  disk_clear_cache dev b = clear_loop 8 dev b 0

  -- `disk_flush`, less the flush inside the device.
  unfoldable pub flush_loop : ℕ → Device io → ℕ → Device io
  flush_loop zero dev i = dev
  flush_loop (suc n) dev i =
      let c = dev.cache in
      let next = flush_loop n dev (i + 1) in
      let written =
        if io.write_error dev.store (c.block i)
        then dev.store
        else io.put dev.store (c.block i) (c.buffer i) in
      let cleaned =
        flush_loop n
          (record dev { store = written; cache = record c { dirty = update c.dirty i false } })
          (i + 1) in
      if not (c.dirty i) then next else cleaned

  unfoldable pub disk_flush : Device io → Device io
  disk_flush dev = flush_loop 8 dev 0

  -- Behind `success:` of `__cached_read`. `cache_block` has 32 bits.
  unfoldable pub mark_read : Device io → ℕ → ℕ → Device io × ℕ
  mark_read dev idx b =
      let c = dev.cache in
      (
        record dev {
          cache = record c {
            dirty = update c.dirty idx true;
            block = update c.block idx (b % w32);
            usage = update c.usage idx ((c.usage idx + 1) % w8);
          };
        },
        idx,
      )

  -- The read of a block that is in no entry; after an error the source returns index 0.
  unfoldable pub fill_entry : Device io → ℕ → ℕ → Device io × ℕ
  fill_entry dev idx b =
      if io.read_error dev.store b
      then (dev, 0)
      else mark_read
          (record dev {
            cache = record dev.cache {
              buffer = update dev.cache.buffer idx (io.contents dev.store b);
            };
          })
          idx b

  unfoldable pub cached_read : Device io → ℕ → Device io × ℕ
  cached_read dev b =
      let (c, idx) = disk_select_cache dev.cache b in
      let dev' = record dev { cache = c } in
      if not (c.allocated idx)
      then (dev', 0xff)
      else if c.dirty idx && c.block idx == b
      then mark_read dev' idx b
      else fill_entry (disk_clear_cache dev' b).0 idx b

  -- Results of the transfer loops: `none` is out of fuel.
  unfoldable pub read_loop : ℕ → Device io → (ℕ → ℕ) → ℕ → ℕ → ℕ → Option (Device io × (ℕ → ℕ) × ℤ)
  read_loop zero dev buffer size offset current = none
  read_loop (suc fuel) dev buffer size offset current =
      let at = add64 offset current in
      let delta = at % dev.sector_size in
      let n = chunk size current dev.sector_size delta in
      let got = cached_read dev (at / dev.sector_size) in
      let rest =
        read_loop fuel got.0 (copy_range buffer current (got.0.cache.buffer got.1) delta n) size
          offset (current + n) in
      if not (ltb current size)
      then some (dev, buffer, pos 0)
      else if got.1 == 0xff
      then some (got.0, buffer, negsuc 0)
      else rest

  unfoldable pub read : ℕ → Device io → (ℕ → ℕ) → ℕ → ℕ → Option (Device io × (ℕ → ℕ) × ℤ)
  read fuel dev buffer size offset =
      read_loop fuel dev buffer size
        (add64 offset (dev.first_sector * dev.effective_sector_size % w64)) 0

  -- One block of `__write`: the entry takes the bytes, and is written to the disk.
  unfoldable pub write_entry : Device io → ℕ → ℕ → (ℕ → ℕ) → ℕ → ℕ → ℕ → Device io × Bool
  write_entry dev idx b buffer current delta n =
      let c = dev.cache in
      let bytes = copy_range (c.buffer idx) delta buffer current n in
      let failed = io.write_error dev.store b in
      (
        record dev {
          cache = record c { buffer = update c.buffer idx bytes };
          store = if failed then dev.store else io.put dev.store b bytes;
        },
        failed,
      )

  unfoldable pub write_loop : ℕ → Device io → (ℕ → ℕ) → ℕ → ℕ → ℕ → Option (Device io × ℤ)
  write_loop zero dev buffer size offset current = none
  write_loop (suc fuel) dev buffer size offset current =
      let at = add64 offset current in
      let b = at / dev.sector_size in
      let delta = at % dev.sector_size in
      let n = chunk size current dev.sector_size delta in
      let got = cached_read dev b in
      let put = write_entry got.0 got.1 b buffer current delta n in
      let rest = write_loop fuel put.0 buffer size offset (current + n) in
      if not (ltb current size)
      then some (dev, pos 0)
      else if got.1 == 0xff
      then some (got.0, negsuc 0)
      else if put.1
      then some (put.0, negsuc 1)
      else rest

  unfoldable pub write : ℕ → Device io → (ℕ → ℕ) → ℕ → ℕ → Option (Device io × ℤ)
  write fuel dev buffer size offset =
      write_loop fuel dev buffer size
        (add64 offset (dev.first_sector * dev.effective_sector_size % w64)) 0

  -- `__write_zero`: the selected entry is not filled from the disk before its part is cleared.
  unfoldable pub zero_loop : ℕ → Device io → ℕ → ℕ → ℕ → Option (Device io × ℤ)
  zero_loop zero dev size offset current = none
  zero_loop (suc fuel) dev size offset current =
      let at = add64 offset current in
      let b = at / dev.sector_size in
      let delta = at % dev.sector_size in
      let n = chunk size current dev.sector_size delta in
      let (c, idx) = disk_select_cache dev.cache b in
      let cleared = (disk_clear_cache (record dev { cache = c }) b).0 in
      let put = write_entry cleared idx b (λ _. 0) current delta n in
      let rest = zero_loop fuel put.0 size offset (current + n) in
      if not (ltb current size)
      then some (dev, pos 0)
      else if idx == 0xff
      then some (record dev { cache = c }, negsuc 0)
      else if put.1
      then some (put.0, negsuc 1)
      else rest

  unfoldable pub write_zero : ℕ → Device io → ℕ → ℕ → Option (Device io × ℤ)
  write_zero fuel dev size offset =
      zero_loop fuel dev size (add64 offset (dev.first_sector * dev.effective_sector_size % w64)) 0
