-- ===== src/Fat/Directory/Open.antt =====
-- Opening an entry of a directory on the disk.
use light_loader.Common.{
  ℕ, ◌*◌, ◌/◌, ◌<◌, ◌≡◌, refl, ap, ◌∙◌, ◌⊎◌, inl, inr, Bool, true, ltb, if◌then◌else◌, arith,
  le-or-lt, lt→ltb, ge→ltb, List, ◌∷◌, length, get_elem?, Option, none, some, w64, ℤ, pos, negsuc,
}
use light_loader.Common.Bytes.{Mem}
use light_loader.ByteDisk.{ByteDisk}
use light_loader.Fat.Results.{Result, ok, err, Ends, Ends-follow, follow-Ends}
use light_loader.Fat.{FatPrivate, cache_cluster_chain, load_clusters}
use light_loader.Fat.Table.{HasTable}
use light_loader.Fat.Chain.{Chain, Holds, cache_cluster_chain-Chain}
use light_loader.Fat.Load.{ArePlaced, file_byte, Shows, Loads, load_clusters-Loads}
use light_loader.Fat.Names.{transform_fat_filename}
use light_loader.Fat.Directory.{
  is_directory, dir_entry_get_start_cluster, dir_entry_size, entry_at, same_name, find_name,
  find_idx, finish, load_directory, open_dir_entry, open_dir_entry_idx,
}
use light_loader.Fat.Directory.Find.{shown, first_where, Picks, find_name-Picks, find_idx-Picks}

-- The bytes of the directory in the clusters `chain`, and the rest of the buffer they are read to.
unfoldable pub directory_bytes : Mem → FatPrivate → List ℕ → Mem → Mem
directory_bytes disk p chain fresh x =
    if ltb x (length chain * p.cluster_size) then file_byte disk p chain x else fresh x

-- What an opened entry is: the picked one of the entries `shown`, with its offset. Without one the
-- result is -3 or -4, or a success that writes no entry.
abbrev pub Opens : Mem → Option ℕ → Result (Option (Mem × ℕ)) → Type 0
Opens entries (some i) r = r ≡ finish entries (pos 0, some i)
Opens entries none r = (r ≡ ok none) ⊎ ((r ≡ err (negsuc 2)) ⊎ (r ≡ err (negsuc 3)))

finish-Picks :
    (entries : Mem) (o : Option ℕ) (r : ℤ × Option ℕ)
    → Picks o (pos 0) r
    → Opens entries o (finish entries r)
unfolding finish
finish-Picks entries (some i) (e, found) (q, z) = rw (q, z) refl
finish-Picks entries none (e, found) (q, inl z) = rw (q, z) (inl refl)
finish-Picks entries none (e, found) (q, inr (inl z)) = rw (q, z) (inr (inl refl))
finish-Picks entries none (e, found) (q, inr (inr z)) = rw (q, z) (inr (inr refl))

module _ (io : ByteDisk) (p : FatPrivate) (t : HasTable io p) (tab : ℕ → ℕ) (disk : Mem) (c : ℕ)
    (cs : List ℕ) where
  -- The directory `current` has the clusters `c ∷ cs`, on a disk with the table `tab` and the bytes
  -- `disk`.
  pub record IsOpenable (fuel : ℕ) (current : Mem) (d : io.Dev) : Type 0 where
    pub directory : is_directory current ≡ true
    pub table : Holds io p t tab d
    pub bytes : (a : ℕ) → io.byte d a ≡ disk a
    pub chain : Chain tab p.cluster_count (dir_entry_get_start_cluster current) (c ∷ cs)
    pub placed : ArePlaced p io.reach (c ∷ cs)
    pub size_pos : 0 < p.cluster_size
    pub size_small : length (c ∷ cs) * p.cluster_size < w64
    pub fuel_enough : length cs < fuel

  Loads-bytes :
      (fresh : Mem) (d : io.Dev) (b : Mem)
      → Loads io p disk (c ∷ cs) 0 (length (c ∷ cs) * p.cluster_size) 0 fresh d b
      → b ≡ directory_bytes disk p (c ∷ cs) fresh
  unfolding directory_bytes
  Loads-bytes fresh d b l = λ i x. byte x i
    where
      byte : (x : ℕ) → b x ≡ directory_bytes disk p (c ∷ cs) fresh x
      byte x = elim (le-or-lt (length (c ∷ cs) * p.cluster_size) x) [
        | inl out ↦ rw (ge→ltb x (length (c ∷ cs) * p.cluster_size) out) (l.outside x (inr out))
        | inr in_ ↦
            rw (lt→ltb x (length (c ∷ cs) * p.cluster_size) in_)
              (l.inside x (omega arith) in_ ∙ ap (file_byte disk p (c ∷ cs)) (omega arith))
      ]

  load_directory-Ends :
      (fuel : ℕ) (fresh current : Mem) (d : io.Dev)
      → IsOpenable fuel current d
      → Ends (load_directory io p fuel fresh current d) (λ d' r.
        Shows io p disk (c ∷ cs) d'
        × (r.0 ≡ length (c ∷ cs) * p.cluster_size / dir_entry_size)
        × (r.1 ≡ directory_bytes disk p (c ∷ cs) fresh))
  unfolding load_directory
  load_directory-Ends fuel fresh current d o = rw o.directory (
      Ends-follow (cache_cluster_chain io p fuel (dir_entry_get_start_cluster current) d) _ _ _
        (cache_cluster_chain-Chain io p t tab fuel (dir_entry_get_start_cluster current) c cs d
          o.table o.chain o.fuel_enough)
        (λ d' chain r.
          let s : Shows io p disk (c ∷ cs) d' = record {
            sound = r.0.sound;
            bytes = λ a. r.0.bytes a ∙ o.bytes a;
          } in
          let size = length (c ∷ cs) * p.cluster_size in
          rw r.1 (
            Ends-follow (load_clusters io p fresh (c ∷ cs) 0 size d') _ _ _
              (load_clusters-Loads io p disk (c ∷ cs) 0 size fresh d' s t.small o.size_pos o.placed
                (omega arith) (omega (arith, o.size_small)) (omega arith))
              (λ d2 b l. (l.shows, refl, Loads-bytes fresh d2 b l)))))

  -- The shown entries of the directory.
  abbrev pub listed : Mem → List ℕ
  listed fresh =
      shown (length (c ∷ cs) * p.cluster_size / dir_entry_size)
        (directory_bytes disk p (c ∷ cs) fresh) 0

  abbrev pub named : Mem → Mem → Option ℕ
  named fresh name =
      first_where (λ k. same_name name (entry_at (directory_bytes disk p (c ∷ cs) fresh) k))
        (listed fresh)

  abbrev pub OpensOn : Mem → Option ℕ → io.Dev × Result (Option (Mem × ℕ)) → Type 0
  OpensOn fresh o r =
      Shows io p disk (c ∷ cs) r.0 × Opens (directory_bytes disk p (c ∷ cs) fresh) o r.1

  -- In a directory that can be read, for a path whose transformation ends: opening it gives the first
  -- shown entry with the transformed name and its offset. Where there is none, the result is -3, -4, or
  -- a success that writes no entry. The disk's bytes stay.
  pub open_dir_entry-Opens :
      (fuel : ℕ) (fresh current rel_path name : Mem) (found_ext : Bool) (d : io.Dev)
      → IsOpenable fuel current d
      → transform_fat_filename fuel rel_path ≡ some (name, found_ext)
      → OpensOn fresh (named fresh name) (open_dir_entry io p fuel fresh current rel_path d)
  unfolding open_dir_entry
  open_dir_entry-Opens fuel fresh current rel_path name found_ext d o e =
      let entries = directory_bytes disk p (c ∷ cs) fresh in
      let count = length (c ∷ cs) * p.cluster_size / dir_entry_size in
      follow-Ends (OpensOn fresh (named fresh name)) (load_directory io p fuel fresh current d) _ _
        (load_directory-Ends fuel fresh current d o)
        (λ d' r h.
          rw (e, h.1, h.2)
            (
              h.0,
              finish-Picks entries (named fresh name) (find_name count name entries 0 (pos 0))
                  (find_name-Picks count name entries 0 (pos 0)),
            ))

  -- In a directory that can be read, opening the index `idx` gives the shown entry with that index and
  -- its offset. Where there is none, the result is -3, -4, or a success that writes no entry. The
  -- disk's bytes stay.
  pub open_dir_entry_idx-Opens :
      (fuel : ℕ) (fresh current : Mem) (idx : ℕ) (d : io.Dev)
      → IsOpenable fuel current d
      → OpensOn fresh
          (get_elem? (listed fresh) idx)
          (open_dir_entry_idx io p fuel fresh current idx d)
  unfolding open_dir_entry_idx
  open_dir_entry_idx-Opens fuel fresh current idx d o =
      let entries = directory_bytes disk p (c ∷ cs) fresh in
      let count = length (c ∷ cs) * p.cluster_size / dir_entry_size in
      follow-Ends (OpensOn fresh (get_elem? (listed fresh) idx))
        (load_directory io p fuel fresh current d) _ _ (load_directory-Ends fuel fresh current d o)
        (λ d' r h.
          rw (h.1, h.2)
            (
              h.0,
              finish-Picks entries (get_elem? (listed fresh) idx)
                  (find_idx count idx entries 0 (pos 0))
                  (find_idx-Picks count idx entries 0 (pos 0)),
            ))
