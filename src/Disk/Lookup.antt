-- ===== src/Disk/Lookup.antt =====
-- `__cached_read` gives an entry that holds the block, and keeps the cache coherent.
use light_loader.Common.{
  ℕ, ◌<◌, ◌≡◌, ◌≢◌, refl, ap, sym, ◌∙◌, inl, inr, Bool, true, false, ◌&&◌, ◌==◌, arith, Bool-cases,
  w32,
}
use light_loader.Disk.{
  BlockIo, Cache, Device, disk_select_cache, disk_clear_cache, fill_entry, cached_read,
}
use light_loader.Disk.Select.{HoldsBlock, SameEntries, disk_select_cache-Selected}
use light_loader.Disk.Coherence.{
  Coherent, SameDisk, Cleared, clear_loop-Cleared, Ready, hit-Ready, fill-Ready,
}

HoldsBlock-Same :
    (c c' : Cache) → SameEntries c c' → (b k : ℕ) → HoldsBlock c b k → HoldsBlock c' b k
HoldsBlock-Same c c' (al, bu, bl, di) b k (used, holds) =
    (ap (λ (f : ℕ → Bool). f k) di ∙ used, ap (λ (f : ℕ → ℕ). f k) bl ∙ holds)

HoldsBlock-SameBack :
    (c c' : Cache) → SameEntries c c' → (b k : ℕ) → HoldsBlock c' b k → HoldsBlock c b k
HoldsBlock-SameBack c c' (al, bu, bl, di) b k (used, holds) =
    (ap (λ (f : ℕ → Bool). f k) (sym di) ∙ used, ap (λ (f : ℕ → ℕ). f k) (sym bl) ∙ holds)

module _ {io : BlockIo} where
  SameEntries-Coherent :
      (dev : Device io) (c : Cache)
      → Coherent dev
      → SameEntries dev.cache c
      → c.oldest < 8
      → Coherent (record dev { cache = c })
  SameEntries-Coherent dev c h (al, bu, bl, di) old = record {
    allocated = λ i l. rw al (h.allocated i l);
    oldest = old;
    through = h.through;
    agrees = λ i j l. rw (di, bu, bl) (h.agrees i j l);
    unique = λ i k li lk. rw (di, bl) (h.unique i k li lk);
  }

  Cleared-Coherent : (dev dev' : Device io) → Coherent dev → Cleared dev dev' → Coherent dev'
  Cleared-Coherent dev dev' h c = record {
    allocated = λ i l. rw c.allocated (h.allocated i l);
    oldest = rw c.oldest h.oldest;
    through = c.same.writes ∙ h.through;
    agrees = λ i j l d.
        ap (λ (f : ℕ → ℕ → ℕ). f i j) c.buffers
        ∙ h.agrees i j l (c.fewer i d).0
        ∙ rw (c.same.store, (c.fewer i d).1) refl;
    unique = λ i k li lk di dk e.
        h.unique i k li lk (c.fewer i di).0 (c.fewer k dk).0
          (sym (c.fewer i di).1 ∙ e ∙ (c.fewer k dk).1);
  }

  -- `Ready` for a device that differs in what caching may change.
  Ready-after :
      (dev dev' : Device io) (b : ℕ) (r : Device io × ℕ)
      → SameDisk dev dev'
      → Ready dev' b r
      → Ready dev b r
  Ready-after dev dev' b r s q = record {
    index-lt = q.index-lt;
    holds = q.holds;
    coherent = q.coherent;
    same = record {
      store = q.same.store ∙ s.store;
      first = q.same.first ∙ s.first;
      sector = q.same.sector ∙ s.sector;
      effective = q.same.effective ∙ s.effective;
      writes = q.same.writes ∙ s.writes;
    };
  }

  miss-Ready :
      (dev : Device io) (idx b : ℕ)
      → idx < 8
      → b < w32
      → Coherent dev
      → io.read_error dev.store b ≡ false
      → ((i : ℕ) → i < 8 → dev.cache.dirty i ≡ true → dev.cache.block i ≢ b)
      → Ready dev b (fill_entry (disk_clear_cache dev b).0 idx b)
  unfolding disk_clear_cache
  miss-Ready dev idx b lt word h ok absent =
      let c = clear_loop-Cleared 8 dev b 0 h.through in
      Ready-after dev _ b _ c.same (
        fill-Ready _ idx b lt word (Cleared-Coherent dev _ h c)
          (ap (λ s. io.read_error s b) c.same.store ∙ ok)
          (λ i l d e. absent i l (c.fewer i d).0 (sym (c.fewer i d).1 ∙ e)))

  lookup_Ready :
      (dev : Device io) (c : Cache) (idx b : ℕ)
      → Coherent (record dev { cache = c })
      → b < w32
      → io.read_error dev.store b ≡ false
      → idx < 8
      → ((k : ℕ) → k < 8 → HoldsBlock c b k → HoldsBlock c b idx)
      → disk_select_cache dev.cache b ≡ (c, idx)
      → Ready dev b (cached_read dev b)
  unfolding cached_read
  lookup_Ready dev c idx b h word ok lt finds e =
      let dev' = record dev { cache = c } in
      let same : SameDisk dev dev' = record {
        store = refl;
        first = refl;
        sector = refl;
        effective = refl;
        writes = refl;
      } in
      rw (e, h.allocated idx lt)
        (elim (Bool-cases (c.dirty idx && c.block idx == b)) [
          | inl hit ↦
              rw hit (Ready-after dev dev' b _ same (hit-Ready dev' idx b lt word h (ground arith)))
          | inr miss ↦ rw miss (
              Ready-after dev dev' b _ same
                (miss-Ready dev' idx b lt word h ok (λ i l d f. ground (arith, finds i l (d, f)))))
        ])

  -- With a coherent cache, a block number that fits 32 bits and no read error of that block, the
  -- look-up gives the index of an entry that holds the block as it is on the disk, in a cache that is
  -- still coherent.
  pub cached_read-Ready :
      (dev : Device io) (b : ℕ)
      → Coherent dev
      → b < w32
      → io.read_error dev.store b ≡ false
      → Ready dev b (cached_read dev b)
  cached_read-Ready dev b h word ok =
      let s = disk_select_cache-Selected dev.cache b h.oldest in
      let sel = disk_select_cache dev.cache b in
      lookup_Ready dev sel.0 sel.1 b (SameEntries-Coherent dev sel.0 h s.entries s.oldest-lt) word
        ok s.index-lt
        (λ k l g.
          HoldsBlock-Same dev.cache sel.0 s.entries b sel.1
            (s.finds k l (HoldsBlock-SameBack dev.cache sel.0 s.entries b k g)))
        refl
