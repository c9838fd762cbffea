-- ===== src/Gpt/Layout.antt =====
-- The layout of the partitions on a disk of 4 GiB or more.
use light_loader.Common.{ℕ, suc, ◌-◌, ◌≤◌, ◌<◌, ◌≡◌, some, List, [], ◌∷◌, map, pos}
use light_loader.Gpt.{DiskDev, GptEntry}
use light_loader.Gpt.Install.{GptHeader, Installed}
use light_loader.Gpt.Entries.{WholeDisk, span}

-- The entries follow one another without a gap from sector `k` on, each with two sectors or more, and
-- end at `hi` at the latest.
abbrev pub Laid : ℕ → ℕ → List GptEntry → Type 0
Laid k hi [] = Unit {0}
Laid k hi (e ∷ es) =
    (e.starting_lba ≡ k) × (k < e.ending_lba) × (e.ending_lba ≤ hi) × Laid (suc e.ending_lba) hi es

-- The first sectors of the entries and the distances to their last ones, in front of others and the
-- last entry first.
abbrev pub spans_onto : List GptEntry → List (ℕ × ℕ) → List (ℕ × ℕ)
spans_onto [] acc = acc
spans_onto (e ∷ es) acc = spans_onto es ((e.starting_lba, e.ending_lba - e.starting_lba) ∷ acc)

module _ (d : DiskDev) (w : WholeDisk d) (ps : List DiskDev) where
  -- The entries and the linked devices are laid out.
  abbrev LaidOut : List GptEntry × List DiskDev → Type 0
  LaidOut r = Laid 2048 (d.total_sectors - 2) r.0 × (map span r.1 ≡ spans_onto r.0 (map span ps))

-- What an installation has done, when it succeeds.
abbrev pub InstalledOn : DiskDev → List DiskDev → Installed → Type 0
InstalledOn d ps r =
    (r.result ≡ pos 0)
    × (h : GptHeader) × (es : List GptEntry) × (r.table ≡ some (h, es))
    × Laid 2048 (d.total_sectors - 2) es
    × (map span r.linked ≡ spans_onto es (map span ps))
