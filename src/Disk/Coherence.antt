-- ===== src/Disk/Coherence.antt =====
-- The cache agrees with the disk, and `__cached_read` keeps it so.
use light_loader.Common.{
  ℕ, zero, suc, ◌+◌, ◌%◌, ◌<◌, ◌≡◌, ◌≢◌, refl, ap, sym, ◌∙◌, inl, inr, true, false, ◌==◌, arith,
  Bool-cases, ==_iff, ==_refl, w32,
}
use light_loader.Disk.{BlockIo, Device, update, clear_entry, clear_loop, mark_read, fill_entry}
use light_loader.Disk.Select.{HoldsBlock}

pub update_self {ℓ} : {A : Type ℓ} (f : ℕ → A) (i : ℕ) (v : A) → update f i v i ≡ v
unfolding update
update_self f i v = rw (==_refl i)

pub update_ne {ℓ} :
    {A : Type ℓ} (f : ℕ → A) (i j : ℕ) (v : A) → (j == i) ≡ false → update f i v j ≡ f j
unfolding update
update_ne f i j v h = rw h

pub update_at {ℓ} :
    {A : Type ℓ} (f : ℕ → A) (i j : ℕ) (v : A) → (j == i) ≡ true → update f i v j ≡ v
unfolding update
update_at f i j v h = rw h

module _ {io : BlockIo} where
  -- Every entry in use holds its block as it is on the disk, no block is held twice, and writes
  -- are not held back.
  pub record Coherent (dev : Device io) : Type 0 where
    pub allocated : (i : ℕ) → i < 8 → dev.cache.allocated i ≡ true
    pub oldest : dev.cache.oldest < 8
    pub through : dev.cache_writes ≡ false
    pub agrees :
        (i j : ℕ)
        → i < 8
        → dev.cache.dirty i ≡ true
        → dev.cache.buffer i j ≡ io.contents dev.store (dev.cache.block i) j
    pub unique :
        (i k : ℕ)
        → i < 8
        → k < 8
        → dev.cache.dirty i ≡ true
        → dev.cache.dirty k ≡ true
        → dev.cache.block i ≡ dev.cache.block k
        → i ≡ k

  -- The parts of the device that caching leaves alone.
  pub record SameDisk (dev dev' : Device io) : Type 0 where
    pub store : dev'.store ≡ dev.store
    pub first : dev'.first_sector ≡ dev.first_sector
    pub sector : dev'.sector_size ≡ dev.sector_size
    pub effective : dev'.effective_sector_size ≡ dev.effective_sector_size
    pub writes : dev'.cache_writes ≡ dev.cache_writes

  -- `dev'` has at most the entries in use that `dev` has.
  pub record Cleared (dev dev' : Device io) : Type 0 where
    pub same : SameDisk dev dev'
    pub buffers : dev'.cache.buffer ≡ dev.cache.buffer
    pub allocated : dev'.cache.allocated ≡ dev.cache.allocated
    pub oldest : dev'.cache.oldest ≡ dev.cache.oldest
    pub fewer :
        (k : ℕ)
        → dev'.cache.dirty k ≡ true
        → (dev.cache.dirty k ≡ true) × (dev'.cache.block k ≡ dev.cache.block k)

  clear_entry-Cleared :
      (dev : Device io) (i : ℕ) → dev.cache_writes ≡ false → Cleared dev (clear_entry dev i)
  unfolding clear_entry
  clear_entry-Cleared dev i w = record {
    same = record { store = rw w; first = refl; sector = refl; effective = refl; writes = refl };
    buffers = refl;
    allocated = refl;
    oldest = refl;
    fewer = λ k h. elim (Bool-cases (k == i)) [
      | inl e ↦ absurd (false_of (sym (update_at dev.cache.dirty i k false e) ∙ h))
      | inr e ↦ (sym (update_ne dev.cache.dirty i k false e) ∙ h, update_ne dev.cache.block i k 0 e)
    ];
  }
    where
      false_of : (false ≡ true) → ⊥
      false_of e = cc

  pub clear_loop-Cleared :
      (n : ℕ) (dev : Device io) (b i : ℕ)
      → dev.cache_writes ≡ false
      → Cleared dev (clear_loop n dev b i).0
  unfolding clear_loop
  clear_loop-Cleared zero dev b i w = record {
    same = record { store = refl; first = refl; sector = refl; effective = refl; writes = refl };
    buffers = refl;
    allocated = refl;
    oldest = refl;
    fewer = λ k h. (h, refl);
  }
  clear_loop-Cleared (suc n) dev b i w = elim (Bool-cases (dev.cache.block i == b)) [
    | inl e ↦ rw e (clear_entry-Cleared dev i w)
    | inr e ↦ rw e (clear_loop-Cleared n dev b (i + 1) w)
  ]

  -- What a look-up of block `b` gives: an entry that holds it, in a coherent cache.
  pub record Ready (dev : Device io) (b : ℕ) (r : Device io × ℕ) : Type 0 where
    pub index-lt : r.1 < 8
    pub holds : HoldsBlock r.0.cache b r.1
    pub coherent : Coherent r.0
    pub same : SameDisk dev r.0

  -- Entry `idx` holds block `b` as it is on the disk, and no other entry in use holds `b`.
  mark_read-Ready :
      (dev : Device io) (idx b : ℕ)
      → idx < 8
      → b < w32
      → ((i : ℕ) → i < 8 → dev.cache.allocated i ≡ true)
      → dev.cache.oldest < 8
      → dev.cache_writes ≡ false
      → ((j : ℕ) → dev.cache.buffer idx j ≡ io.contents dev.store b j)
      → ((i j : ℕ)
          → i < 8
          → (i == idx) ≡ false
          → dev.cache.dirty i ≡ true
          → dev.cache.buffer i j ≡ io.contents dev.store (dev.cache.block i) j)
      → ((i k : ℕ)
          → i < 8
          → k < 8
          → (i == idx) ≡ false
          → (k == idx) ≡ false
          → dev.cache.dirty i ≡ true
          → dev.cache.dirty k ≡ true
          → dev.cache.block i ≡ dev.cache.block k
          → i ≡ k)
      → ((i : ℕ) → i < 8 → (i == idx) ≡ false → dev.cache.dirty i ≡ true → dev.cache.block i ≢ b)
      → Ready dev b (mark_read dev idx b)
  unfolding mark_read
  mark_read-Ready dev idx b lt word al old w here others uniq apart = record {
    index-lt = lt;
    holds =
        (update_self dev.cache.dirty idx true, update_self dev.cache.block idx (b % w32) ∙ small);
    coherent = record {
      allocated = al;
      oldest = old;
      through = w;
      agrees = λ i j l d. elim (Bool-cases (i == idx)) [
        | inl e ↦ rw (block_at i e, (==_iff i idx).0 e) (here j)
        | inr e ↦ rw (block_ne i e) (others i j l e (dirty_ne i e d))
      ];
      unique = λ i k li lk di dk eq. elim (Bool-cases (i == idx)) [
        | inl e ↦ elim (Bool-cases (k == idx)) [
          | inl f ↦ (==_iff i idx).0 e ∙ sym ((==_iff k idx).0 f)
          | inr f ↦
              absurd (apart k lk f (dirty_ne k f dk) (sym (block_ne k f) ∙ sym eq ∙ block_at i e))
        ]
        | inr e ↦ elim (Bool-cases (k == idx)) [
          | inl f ↦ absurd (apart i li e (dirty_ne i e di) (sym (block_ne i e) ∙ eq ∙ block_at k f))
          | inr f ↦
              uniq i k li lk e f (dirty_ne i e di) (dirty_ne k f dk)
                (sym (block_ne i e) ∙ eq ∙ block_ne k f)
        ]
      ];
    };
    same = record { store = refl; first = refl; sector = refl; effective = refl; writes = refl };
  }
    where
      small : b % w32 ≡ b
      small = omega arith

      block_at : (i : ℕ) → (i == idx) ≡ true → update dev.cache.block idx (b % w32) i ≡ b
      block_at i e = update_at dev.cache.block idx i (b % w32) e ∙ small

      block_ne :
          (i : ℕ) → (i == idx) ≡ false → update dev.cache.block idx (b % w32) i ≡ dev.cache.block i
      block_ne i e = update_ne dev.cache.block idx i (b % w32) e

      dirty_ne :
          (i : ℕ)
          → (i == idx) ≡ false
          → update dev.cache.dirty idx true i ≡ true
          → dev.cache.dirty i ≡ true
      dirty_ne i e d = sym (update_ne dev.cache.dirty idx i true e) ∙ d

  pub hit-Ready :
      (dev : Device io) (idx b : ℕ)
      → idx < 8
      → b < w32
      → Coherent dev
      → HoldsBlock dev.cache b idx
      → Ready dev b (mark_read dev idx b)
  hit-Ready dev idx b lt word c (used, holds) =
      mark_read-Ready dev idx b lt word c.allocated c.oldest c.through
        (λ j. c.agrees idx j lt used ∙ ap (λ k. io.contents dev.store k j) holds)
        (λ i j l e d. c.agrees i j l d) (λ i k li lk e f di dk eq. c.unique i k li lk di dk eq)
        (λ i l e d eq. ne_of i e (c.unique i idx l lt d used (eq ∙ sym holds)))
    where
      ne_of : (i : ℕ) → (i == idx) ≡ false → i ≡ idx → ⊥
      ne_of i e p = ground arith

  pub fill-Ready :
      (dev : Device io) (idx b : ℕ)
      → idx < 8
      → b < w32
      → Coherent dev
      → io.read_error dev.store b ≡ false
      → ((i : ℕ) → i < 8 → dev.cache.dirty i ≡ true → dev.cache.block i ≢ b)
      → Ready dev b (fill_entry dev idx b)
  unfolding fill_entry
  fill-Ready dev idx b lt word c ok absent =
      let filled = record dev {
        cache = record dev.cache { buffer = update dev.cache.buffer idx (io.contents dev.store b) };
      } in
      let r : Ready filled b (mark_read filled idx b) =
        mark_read-Ready filled idx b lt word c.allocated c.oldest c.through
          (λ j.
            ap (λ (v : ℕ → ℕ). v j) (update_self dev.cache.buffer idx (io.contents dev.store b)))
          (λ i j l e d.
            ap (λ (v : ℕ → ℕ). v j) (update_ne dev.cache.buffer idx i (io.contents dev.store b) e)
            ∙ c.agrees i j l d)
          (λ i k li lk e f di dk eq. c.unique i k li lk di dk eq) (λ i l e d. absent i l d) in
      rw ok (record {
        index-lt = r.index-lt;
        holds = r.holds;
        coherent = r.coherent;
        same = record {
          store = r.same.store;
          first = r.same.first;
          sector = r.same.sector;
          effective = r.same.effective;
          writes = r.same.writes;
        };
      })
