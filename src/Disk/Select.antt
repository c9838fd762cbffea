-- ===== src/Disk/Select.antt =====
-- The choice of a cache entry: it is one of the eight, and the entry that holds the block if there
-- is one.
use light_loader.Common.{
  ℕ, zero, suc, ◌+◌, ◌%◌, ◌≤◌, ◌<◌, ◌≡◌, refl, ◌⊎◌, inl, inr, Bool, true, false, ◌==◌, ltb, arith,
  Bool-cases, le-or-lt, ==_iff, w8,
}
use light_loader.Disk.{Cache, scan_loop, lowest_loop, pick_used, pick, disk_select_cache}

-- Entry `i` is in use for block `b`.
abbrev pub HoldsBlock : Cache → ℕ → ℕ → Type 0
HoldsBlock c b i = (c.dirty i ≡ true) × (c.block i ≡ b)

abbrev ScanDone : Cache → ℕ → Bool × ℕ → Type 0
ScanDone c b (true, i) = (i < 8) × HoldsBlock c b i
ScanDone c b (false, p) = (p < 8) ⊎ (p ≡ 0xff)

scan_loop-ScanDone :
    (n : ℕ) (c : Cache) (b i p : ℕ)
    → i + n ≤ 8
    → (p < 8) ⊎ (p ≡ 0xff)
    → ScanDone c b (scan_loop n c b i p)
unfolding scan_loop
scan_loop-ScanDone zero c b i p le h = h
scan_loop-ScanDone (suc n) c b i p le h = elim (Bool-cases (c.dirty i)) [
  | inr free ↦ rw free (scan_loop-ScanDone n c b (i + 1) i (omega arith) (inl (omega arith)))
  | inl used ↦ elim (Bool-cases (c.block i == b)) [
    | inl hit ↦ rw (used, hit) (omega arith, (used, (==_iff _ _).0 hit))
    | inr miss ↦ rw (used, miss) (scan_loop-ScanDone n c b (i + 1) p (omega arith) h)
  ]
]

-- An entry that holds the block is found.
scan_loop-found :
    (n : ℕ) (c : Cache) (b i p k : ℕ)
    → i ≤ k
    → k < i + n
    → HoldsBlock c b k
    → (scan_loop n c b i p).0 ≡ true
unfolding scan_loop
scan_loop-found zero c b i p k lo hi h = absurd (omega arith)
scan_loop-found (suc n) c b i p k lo hi h = elim (le-or-lt k i) [
  | inl here ↦
      let e : i ≡ k = omega arith in
      let used : c.dirty i ≡ true = rw e h.0 in
      let hit : c.block i ≡ b = rw e h.1 in rw (used, (==_iff _ _).1 hit)
  | inr later ↦ elim (Bool-cases (c.dirty i)) [
    | inr free ↦ rw free (scan_loop-found n c b (i + 1) i k (omega arith) (omega arith) h)
    | inl used ↦ elim (Bool-cases (c.block i == b)) [
      | inl hit ↦ rw (used, hit)
      | inr miss ↦ rw (used, miss) (scan_loop-found n c b (i + 1) p k (omega arith) (omega arith) h)
    ]
  ]
]

lowest_loop-lt :
    (n : ℕ) (c : Cache) (i lowest lower p : ℕ)
    → i + n ≤ 8
    → lower + n < 256
    → (lower ≡ 0) ⊎ (p < 8)
    → ((lowest_loop n c i lowest lower p).0 ≡ 0) ⊎ ((lowest_loop n c i lowest lower p).1 < 8)
unfolding lowest_loop
lowest_loop-lt zero c i lowest lower p le f h = h
lowest_loop-lt (suc n) c i lowest lower p le f h = elim (Bool-cases (ltb (c.usage i) lowest)) [
  | inl less ↦
      let byte : (lower + 1) % w8 ≡ lower + 1 = omega arith in
      rw (less, byte)
        (lowest_loop-lt n c (i + 1) (c.usage i) (lower + 1) i (omega arith) (omega arith)
          (inr (omega arith)))
  | inr more ↦ rw more (lowest_loop-lt n c (i + 1) lowest lower p (omega arith) (omega arith) h)
]

-- The entries, less the round-robin counter.
abbrev pub SameEntries : Cache → Cache → Type 0
SameEntries c c' =
    (c'.allocated ≡ c.allocated)
    × (c'.buffer ≡ c.buffer)
    × (c'.block ≡ c.block)
    × (c'.dirty ≡ c.dirty)

pub record Selected (c : Cache) (b : ℕ) (r : Cache × ℕ) : Type 0 where
  pub index-lt : r.1 < 8
  pub oldest-lt : r.0.oldest < 8
  pub entries : SameEntries c r.0
  pub finds : (k : ℕ) → k < 8 → HoldsBlock c b k → HoldsBlock c b r.1

pick_used-Selected :
    (c : Cache) (b : ℕ) (r : ℕ × ℕ)
    → c.oldest < 8
    → (r.0 ≡ 0) ⊎ (r.1 < 8)
    → ((k : ℕ) → k < 8 → HoldsBlock c b k → false ≡ true)
    → Selected c b (pick_used c r)
unfolding pick_used
pick_used-Selected c b (lower, p) old low none = elim (Bool-cases (lower == 0)) [
  | inr some ↦ rw some (record {
    index-lt = ground arith;
    oldest-lt = old;
    entries = (refl, refl, refl, refl);
    finds = λ k l g. ground (arith, none k l g);
  })
  | inl nothing ↦ rw nothing (record {
    index-lt = old;
    oldest-lt = omega arith;
    entries = (refl, refl, refl, refl);
    finds = λ k l g. ground (arith, none k l g);
  })
]

pick-Selected :
    (c : Cache) (b : ℕ) (found : Bool × ℕ)
    → c.oldest < 8
    → ScanDone c b found
    → ((k : ℕ) → k < 8 → HoldsBlock c b k → found.0 ≡ true)
    → Selected c b (pick c found)
unfolding pick
pick-Selected c b (true, i) old (lt, h) all = record {
  index-lt = lt;
  oldest-lt = old;
  entries = (refl, refl, refl, refl);
  finds = λ k l g. h;
}
pick-Selected c b (false, p) old done all = elim (Bool-cases (p == 0xff)) [
  | inr free ↦ rw free (record {
    index-lt = ground arith;
    oldest-lt = old;
    entries = (refl, refl, refl, refl);
    finds = λ k l g. ground (arith, all k l g);
  })
  | inl full ↦ rw full (
      pick_used-Selected c b _ old
        (lowest_loop-lt 8 c 0 0xff 0 p (omega arith) (omega arith) (inl refl)) all)
]

-- If the oldest index is one of the eight entries, so are the selected one and the new oldest index,
-- the buffers, blocks and flags of the entries are unchanged, and the selected entry is marked and
-- has the block whenever any entry is and does.
pub disk_select_cache-Selected :
    (c : Cache) (b : ℕ) → c.oldest < 8 → Selected c b (disk_select_cache c b)
unfolding disk_select_cache
disk_select_cache-Selected c b old =
    pick-Selected c b (scan_loop 8 c b 0 0xff) old
      (scan_loop-ScanDone 8 c b 0 0xff (omega arith) (inr refl))
      (λ k l g. scan_loop-found 8 c b 0 0xff k (omega arith) (omega arith) g)
