-- ===== src/Fat/Load.antt =====
-- Reads through a cluster chain are reads of the file that the clusters make up.
use light_loader.Common.{
  ℕ, zero, suc, ◌+◌, ◌-◌, ◌*◌, ◌/◌, ◌%◌, ◌≤◌, ◌<◌, ◌≡◌, refl, ap, sym, ◌∙◌, ◌⊎◌, inl, inr, arith,
  le-or-lt, lt→ltb, ge→ltb, List, [], ◌∷◌, length, get_elem?, get_or, some, w32, w64, add64, sub32,
  negsuc,
}
use native.Mathlib.Nat.{mod-lt, div-lt_iff_lt-mul}
use light_loader.Common.Bytes.{Mem}
use light_loader.ByteDisk.{ByteDisk}
use light_loader.Disk.{copy_range}
use light_loader.Disk.Access.{copy_range-in, copy_range-out, same_block}
use light_loader.Fat.Results.{Ends, Ends-follow, Ends-weaken, Ends-or_fail, replace_error}
use light_loader.Fat.{
  FatPrivate, cluster_offset, read_bytes, load_delta, load_clusters_loop, load_clusters,
}
use light_loader.Fat.Table.{read_bytes-Ends}

-- Where a data cluster stands, with no wrap-around.
abbrev pub place : FatPrivate → ℕ → ℕ
place p c = (p.usable_clusters_start + (c - 2) * p.sectors_per_cluster) * p.bytes_per_sector

-- A data cluster whose bytes lie within reach, at an offset that does not wrap.
pub record IsPlaced (p : FatPrivate) (reach c : ℕ) : Type 0 where
  pub data_cluster : 2 ≤ c
  pub narrow : (c - 2) * p.sectors_per_cluster < w32
  pub word : c < w32
  pub sector : p.usable_clusters_start + (c - 2) * p.sectors_per_cluster < w64
  pub within : place p c + p.cluster_size ≤ reach

abbrev pub ArePlaced : FatPrivate → ℕ → List ℕ → Type 0
ArePlaced p reach [] = Unit {0}
ArePlaced p reach (c ∷ cs) = IsPlaced p reach c × ArePlaced p reach cs

-- Byte `k` of the file whose clusters are `chain`.
unfoldable pub file_byte : Mem → FatPrivate → List ℕ → ℕ → ℕ
file_byte disk p chain k = disk (place p (get_or chain (k / p.cluster_size) 0) + k % p.cluster_size)

get_or-ArePlaced :
    (p : FatPrivate) (reach : ℕ) (chain : List ℕ) (i : ℕ)
    → ArePlaced p reach chain
    → i < length chain
    → (get_elem? chain i ≡ some (get_or chain i 0)) × IsPlaced p reach (get_or chain i 0)
get_or-ArePlaced p reach [] i h lt = absurd (omega arith)
get_or-ArePlaced p reach (c ∷ cs) zero h lt = (refl, h.0)
get_or-ArePlaced p reach (c ∷ cs) (suc i) h lt = get_or-ArePlaced p reach cs i h.1 (omega arith)

offset_exact :
    (u k b : ℕ)
    → k < w32
    → u + k < w64
    → (u + k) * b < w64
    → add64 u (k % w32) * b % w64 ≡ (u + k) * b
offset_exact u k b narrow sector top =
    let low : k % w32 ≡ k = omega arith in
    let sum : add64 u k ≡ u + k = omega arith in rw (low, sum) (omega arith)

pub cluster_offset-IsPlaced :
    (p : FatPrivate) (reach c : ℕ)
    → reach < w64
    → IsPlaced p reach c
    → 0 < p.cluster_size
    → cluster_offset p c ≡ place p c
unfolding cluster_offset
cluster_offset-IsPlaced p reach c small h pos =
    let e : sub32 c 2 ≡ c - 2 = omega (arith, h.data_cluster, h.word) in
    rw e (
      offset_exact p.usable_clusters_start ((c - 2) * p.sectors_per_cluster) p.bytes_per_sector
        h.narrow h.sector (omega (arith, h.within)))

load_delta_bounds :
    (io : ByteDisk) (p : FatPrivate) (count index deviation : ℕ)
    → index < count
    → deviation < p.cluster_size
    → (0 < load_delta io p count index deviation)
      × (deviation + load_delta io p count index deviation ≤ p.cluster_size)
      × (index + load_delta io p count index deviation ≤ count)
unfolding load_delta
load_delta_bounds io p count index deviation lt d = ground arith

module _ (io : ByteDisk) (p : FatPrivate) (disk : Mem) (chain : List ℕ) where
  -- A sound device with the bytes `disk`.
  pub record Shows (d : io.Dev) : Type 0 where
    pub sound : io.Sound d
    pub bytes : (a : ℕ) → io.byte d a ≡ disk a

  -- The buffer from `index` to `count` holds the file's bytes from `start + index` on.
  pub record Loads (start count index : ℕ) (buffer : Mem) (d : io.Dev) (r : Mem) : Type 0 where
    pub shows : Shows d
    pub inside : (j : ℕ) → index ≤ j → j < count → r j ≡ file_byte disk p chain (start + j)
    pub outside : (j : ℕ) → (j < index) ⊎ (count ≤ j) → r j ≡ buffer j

  -- What a round reads is what the file has there.
  round-byte :
      (start index j n : ℕ) (bytes : Mem)
      → 0 < p.cluster_size
      → (start + index) % p.cluster_size + n ≤ p.cluster_size
      → index ≤ j
      → j < index + n
      → ((k : ℕ)
          → k < n
          → bytes k
            ≡ disk (
                place p (get_or chain ((start + index) / p.cluster_size) 0)
                + (start + index) % p.cluster_size
                + k))
      → bytes (0 + (j - index)) ≡ file_byte disk p chain (start + j)
  unfolding file_byte
  round-byte start index j n bytes pos fits lo hi h =
      let (q, r) = same_block (start + index) (j - index) p.cluster_size pos (omega arith) in
      let at : start + index + (j - index) ≡ start + j = omega arith in
      let q' : (start + j) / p.cluster_size ≡ (start + index) / p.cluster_size =
        ap (λ x. x / p.cluster_size) (sym at) ∙ q in
      let r' : (start + j) % p.cluster_size ≡ (start + index) % p.cluster_size + (j - index) =
        ap (λ x. x % p.cluster_size) (sym at) ∙ r in
      ap bytes (omega arith) ∙ h (j - index) (omega arith) ∙ rw (q', r') (ap disk (omega arith))

  Loads-round :
      (start count index n : ℕ) (buffer bytes : Mem) (d : io.Dev) (r : Mem)
      → 0 < p.cluster_size
      → (start + index) % p.cluster_size + n ≤ p.cluster_size
      → index + n ≤ count
      → ((k : ℕ)
          → k < n
          → bytes k
            ≡ disk (
                place p (get_or chain ((start + index) / p.cluster_size) 0)
                + (start + index) % p.cluster_size
                + k))
      → Loads start count (index + n) (copy_range buffer index bytes 0 n) d r
      → Loads start count index buffer d r
  Loads-round start count index n buffer bytes d r pos fits le h l = record {
    shows = l.shows;
    inside = λ j lo hi. elim (le-or-lt (index + n) j) [
      | inl far ↦ l.inside j far hi
      | inr near ↦
          l.outside j (inl near)
          ∙ copy_range-in buffer bytes index 0 n j lo near
          ∙ round-byte start index j n bytes pos fits lo near h
    ];
    outside =
        λ j o. l.outside j (grind arith) ∙ copy_range-out buffer bytes index 0 n j (grind arith);
  }

  load_clusters_loop-Loads :
      (fuel start count index : ℕ) (buffer : Mem) (d : io.Dev)
      → Shows d
      → io.reach < w64
      → 0 < p.cluster_size
      → ArePlaced p io.reach chain
      → start + count < w64
      → start + count ≤ length chain * p.cluster_size
      → index ≤ count
      → count - index < fuel
      → Ends
          (load_clusters_loop io p fuel chain start count buffer index d)
          (λ d' r. Loads start count index buffer d' r)
  unfolding load_clusters_loop
  load_clusters_loop-Loads zero start count index buffer d s small pos pl top len le f =
      absurd (omega arith)
  load_clusters_loop-Loads (suc fuel) start count index buffer d s small pos pl top len le f =
      elim (le-or-lt count index) [
        | inl done ↦
            rw (load_clusters_loop, ge→ltb index count done)
              (record {
                shows = s;
                inside = λ j lo hi. absurd (omega arith);
                outside = λ j o. refl;
              })
        | inr more ↦
            let at : add64 start index ≡ start + index = omega arith in
            let i = (start + index) / p.cluster_size in
            let dev = (start + index) % p.cluster_size in
            let inner : i < length chain = (div-lt_iff_lt-mul pos).1 (omega arith) in
            let (found, placed) = get_or-ArePlaced p io.reach chain i pl inner in
            let c = get_or chain i 0 in
            let n = load_delta io p count index dev in
            let (pn, fits, within) =
              load_delta_bounds io p count index dev more (mod-lt (start + index) pos) in
            let off : add64 (cluster_offset p c) dev ≡ place p c + dev = omega (
              arith,
              cluster_offset-IsPlaced p io.reach c small placed pos,
              placed.within,
              small,
            ) in
            rw (load_clusters_loop, lt→ltb index count more, at, found, at, off)
              (Ends-follow (replace_error (negsuc 1) (read_bytes io p buffer n (place p c + dev) d))
                _ _ _
                (Ends-or_fail (negsuc 1) (read_bytes io p buffer n (place p c + dev) d) _ (
                  read_bytes-Ends io p buffer n (place p c + dev) d s.sound
                    (omega (arith, placed.within))))
                (λ d' bytes r.
                  let s' : Shows d' = record {
                    sound = r.0.sound;
                    bytes = λ a. r.0.bytes a ∙ s.bytes a;
                  } in
                  Ends-weaken
                    (load_clusters_loop io p fuel chain start count
                      (copy_range buffer index bytes 0 n) (index + n) d')
                    _ _
                    (load_clusters_loop-Loads fuel start count (index + n)
                      (copy_range buffer index bytes 0 n) d' s' small pos pl top len within
                      (omega arith))
                    (λ d2 out l.
                      Loads-round start count index n buffer bytes d2 out pos fits within
                        (λ k lt. r.1 k lt ∙ s.bytes (place p c + dev + k)) l)))
      ]

  pub load_clusters-Loads :
      (start count : ℕ) (buffer : Mem) (d : io.Dev)
      → Shows d
      → io.reach < w64
      → 0 < p.cluster_size
      → ArePlaced p io.reach chain
      → start < w32
      → start + count < w64
      → start + count ≤ length chain * p.cluster_size
      → Ends
          (load_clusters io p buffer chain start count d)
          (λ d' r. Loads start count 0 buffer d' r)
  unfolding load_clusters
  load_clusters-Loads start count buffer d s small pos pl narrow top len =
      let same : start % w32 ≡ start = omega arith in
      rw same (
        load_clusters_loop-Loads (suc count) start count 0 buffer d s small pos pl top len
          (omega arith) (omega arith))
