-- ===== src/Gpt/Entries.antt =====
-- What one entry of the table comes to on a disk of 4 GiB or more.
use light_loader.Common.{
  ℕ, ◌+◌, ◌-◌, ◌*◌, ◌/◌, ◌%◌, ◌^◌, ◌≤◌, ◌<◌, ◌≡◌, refl, sym, ◌∙◌, ap, ◌⊎◌, inl, inr, false, List,
  [], ◌∷◌, map, w64, add64, sub64, arith,
}
use mathlib.Core.Path.{subst, subst₂}
use light_loader.Heap.{align_up}
use light_loader.Gpt.{
  DiskDev, has_flag, disk_flag_partition, PartType, GptEntry, clamped_end,
  create_and_link_partition_dev, disk_add_gpt_partition_entry, gpt_entry_get_end_offset,
}
use light_loader.Gpt.Install.{
  mib, gib, change_first, add_gap_partition, add_system_partition, add_data_partition,
}

-- The sizes of sectors in use.
abbrev pub Sector : ℕ → Type 0
Sector s = (s ≡ 512) ⊎ (s ≡ 4096)

-- A whole disk of 4 GiB or more.
abbrev pub WholeDisk : DiskDev → Type 0
WholeDisk d =
    Sector d.effective_sector_size
    × (d.total_size ≡ d.total_sectors * d.effective_sector_size)
    × (4 * gib ≤ d.total_size)
    × (d.total_sectors < 2 ^ 50)
    × (has_flag d.dev_flags disk_flag_partition ≡ false)

starting_lem : (s k : ℕ) → Sector s → k < 2 ^ 50 → sub64 (k * s) (k * s % s) / s ≡ k
starting_lem s k (inl e) h = rw e (omega arith)
starting_lem s k (inr e) h = rw e (omega arith)

clamped_end_lem :
    (total k s n : ℕ)
    → Sector s
    → 0 < n
    → k + n + 1 < total
    → total < 2 ^ 50
    → clamped_end total k s (n * s) ≡ k + n
unfolding clamped_end align_up
clamped_end_lem total k s n (inl e) z l t = rw e (ground arith)
clamped_end_lem total k s n (inr e) z l t = rw e (ground arith)

pub offset_lem : (s k : ℕ) → Sector s → k < 2 ^ 50 → k * s % w64 ≡ k * s
offset_lem s k (inl e) h = rw e (omega arith)
offset_lem s k (inr e) h = rw e (omega arith)

-- The size of the data partition.
left_lem :
    (total k s : ℕ)
    → Sector s
    → k + 16 ≤ total
    → total < 2 ^ 50
    → (let left = sub64 (sub64 (total * s) (k * s)) (16 * s % w64) in
        sub64 left (left % s) ≡ (total - k - 16) * s)
left_lem total k s (inl e) l t = rw e (omega arith)
left_lem total k s (inr e) l t = rw e (omega arith)

-- The gap and the system partition have whole sectors, and leave room on the disk.
pub sizes_lem :
    (s total : ℕ)
    → Sector s
    → 4 * gib ≤ total * s
    → (g : ℕ) × (y : ℕ) × (9 * mib ≡ g * s)
      × (3885056 * 512 ≡ y * s)
      × (0 < g)
      × (0 < y)
      × (2050 + g + y + 20 < total)
sizes_lem s total (inl e) l = (
  18432,
  3885056,
  rw e refl,
  rw e refl,
  omega arith,
  omega arith,
  omega (arith, subst (λ k. 4 * gib ≤ total * k) e l),
)
sizes_lem s total (inr e) l = (
  2304,
  485632,
  rw e refl,
  rw e refl,
  omega arith,
  omega arith,
  omega (arith, subst (λ k. 4 * gib ≤ total * k) e l),
)

-- The first sector and the number of sectors of a linked device.
abbrev pub span : DiskDev → ℕ × ℕ
span d = (d.first_sector, d.total_sectors)

module _ (d : DiskDev) (w : WholeDisk d) where
  -- An entry for `n` whole sectors from sector `k` on: its sectors, and the device linked for it.
  abbrev pub Entered : ℕ → ℕ → List DiskDev → GptEntry × List DiskDev → Type 0
  Entered k n ps r =
      (r.0.starting_lba ≡ k) × (r.0.ending_lba ≡ k + n) × (map span r.1 ≡ (k, n) ∷ map span ps)

  link_lem :
      (ps : List DiskDev) (k n : ℕ)
      → k + n < w64
      → map span (create_and_link_partition_dev d ps k (k + n)) ≡ (k, n) ∷ map span ps
  unfolding create_and_link_partition_dev
  link_lem ps k n l =
      rw (create_and_link_partition_dev, w.4) (ap (λ t. (k, t) ∷ map span ps) (omega arith))

  entry_lem :
      (ps : List DiskDev) (name : List ℕ) (k n attrs : ℕ) (type : PartType)
      → 0 < n
      → k + n + 1 < d.total_sectors
      → Entered k n ps (
          disk_add_gpt_partition_entry d ps name
            (k * d.effective_sector_size)
            (n * d.effective_sector_size)
            attrs
            type)
  unfolding disk_add_gpt_partition_entry
  entry_lem ps name k n attrs type z l =
      let at = starting_lem d.effective_sector_size k w.0 (omega arith) in
      let end_ = clamped_end_lem d.total_sectors k d.effective_sector_size n w.0 z l w.3 in
      (at, rw (at, end_) refl, rw (at, end_) (link_lem ps k n (omega arith)))

  pub end_offset_lem :
      (e : GptEntry)
      → e.ending_lba + 1 < 2 ^ 50
      → gpt_entry_get_end_offset d e ≡ (e.ending_lba + 1) * d.effective_sector_size
  unfolding gpt_entry_get_end_offset
  end_offset_lem e h =
      let plain : add64 e.ending_lba 1 ≡ e.ending_lba + 1 = omega arith in
      rw plain (offset_lem d.effective_sector_size (e.ending_lba + 1) w.0 h)

  -- The flags of the device in front do not matter for the spans.
  change_first_lem :
      (f : DiskDev → DiskDev) (ps : List DiskDev)
      → ((p : DiskDev) → span (f p) ≡ span p)
      → map span (change_first f ps) ≡ map span ps
  unfolding change_first
  change_first_lem f [] h = refl
  change_first_lem f (p ∷ ps) h = ap (λ q. q ∷ map span ps) (h p)

  entry_at :
      (ps : List DiskDev) (name : List ℕ) (start size k n attrs : ℕ) (type : PartType)
      → start ≡ k * d.effective_sector_size
      → size ≡ n * d.effective_sector_size
      → 0 < n
      → k + n + 1 < d.total_sectors
      → Entered k n ps (disk_add_gpt_partition_entry d ps name start size attrs type)
  entry_at ps name start size k n attrs type e f z l =
      subst₂ (λ a b. Entered k n ps (disk_add_gpt_partition_entry d ps name a b attrs type)) (sym e)
        (sym f) (entry_lem ps name k n attrs type z l)

  pub gap_lem :
      (ps : List DiskDev) (g : ℕ)
      → 9 * mib ≡ g * d.effective_sector_size
      → 0 < g
      → 2048 + g + 1 < d.total_sectors
      → Entered 2048 g ps (add_gap_partition d ps)
  unfolding add_gap_partition
  gap_lem ps g e z l =
      let (a, b, c) =
        entry_at ps _ (2048 * d.effective_sector_size % w64) (9 * mib) 2048 g _ _
          (offset_lem d.effective_sector_size 2048 w.0 (omega arith)) e z l in
      (a, b, change_first_lem _ _ (λ p. refl) ∙ c)

  pub system_lem :
      (ps : List DiskDev) (start k y : ℕ)
      → start ≡ k * d.effective_sector_size
      → 3885056 * 512 ≡ y * d.effective_sector_size
      → 0 < y
      → k + y + 1 < d.total_sectors
      → Entered k y ps (add_system_partition d ps start)
  unfolding add_system_partition
  system_lem ps start k y f e z l =
      let (a, b, c) = entry_at ps _ start (3885056 * 512) k y _ _ f e z l in
      (a, b, change_first_lem _ _ (λ p. refl) ∙ c)

  pub data_lem :
      (ps : List DiskDev) (start k : ℕ)
      → start ≡ k * d.effective_sector_size
      → k + 17 ≤ d.total_sectors
      → Entered k (d.total_sectors - k - 16) ps (add_data_partition d ps start)
  unfolding add_data_partition
  data_lem ps start k f l =
      let (a, b, c) =
        entry_at ps _ start _ k (d.total_sectors - k - 16) _ _ f
          (rw (w.1, f) (left_lem d.total_sectors k d.effective_sector_size w.0 (omega arith) w.3))
          (omega arith) (omega arith) in
      (a, b, change_first_lem _ _ (λ p. refl) ∙ c)
