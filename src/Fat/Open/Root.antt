-- ===== src/Fat/Open/Root.antt =====
-- A file of the root directory is opened with its chain.
use light_loader.Common.{
  ℕ, zero, suc, ◌+◌, ◌*◌, ◌/◌, ◌%◌, ◌<◌, ◌≡◌, ◌≢◌, refl, ap, sym, ◌∙◌, ◌==◌, leb, Bool, true, false,
  arith, lt→leb_false, ==_refl, add32, w32, List, ◌∷◌, length, Option, some,
}
use mathlib.Core.Path.{subst}
use light_loader.Common.Bytes.{Mem}
use light_loader.ByteDisk.{ByteDisk}
use light_loader.Memory.{strlen}
use light_loader.Memory.Strings.{strlen_lem}
use light_loader.Fat.Results.{Result, ok, err, fault, out_of_fuel, Ends, Ends-follow, Ends-weaken}
use light_loader.Fat.{FatPrivate, cache_cluster_chain}
use light_loader.Fat.Table.{HasTable}
use light_loader.Fat.Chain.{Chain, Holds, Holds-Keeps, cache_cluster_chain-Chain}
use light_loader.Fat.Load.{Shows}
use light_loader.Fat.Names.{transform_fat_filename}
use light_loader.Fat.Write.{FatFile}
use light_loader.Fat.Directory.{
  dir_entry_size, filesize_bytes, dir_entry_get_start_cluster, entry_at, finish, open_dir_entry,
}
use light_loader.Fat.Directory.Open.{
  IsOpenable, OpensOn, named, directory_bytes, open_dir_entry-Opens,
}
use light_loader.Fat.Open.{
  enters, component, located, or_null, with_chain, no_file, enter, open_file, open_loop, fat32_open,
  fat32_max_filename_length,
}

Ends-or_null :
    {D A : Type 0} (r : D × Result (Option A)) (P : D → Option A → Type 0)
    → Ends r P
    → Ends (or_null r) P
Ends-or_null (d, ok a) P h = h
Ends-or_null (d, err e) P h = absurd h
Ends-or_null (d, fault) P h = absurd h
Ends-or_null (d, out_of_fuel) P h = absurd h

Ends-with_chain :
    {D : Type 0} (file : FatFile) (size : ℕ) (r : D × Result (List ℕ)) (chain : List ℕ)
    → Ends r (λ d' c. c ≡ chain)
    → Ends
        (with_chain file size r)
        (λ d' o. o ≡ some (true, record file { cluster_chain = chain; filesize = size }))
Ends-with_chain file size (d, ok c) chain h =
    ap (λ x. some (true, record file { cluster_chain = x; filesize = size })) h
Ends-with_chain file size (d, err e) chain h = absurd h
Ends-with_chain file size (d, fault) chain h = absurd h
Ends-with_chain file size (d, out_of_fuel) chain h = absurd h

abbrev value_or : {A : Type 0} → A → Result A → A
value_or a (ok b) = b
value_or a (err e) = a
value_or a fault = a
value_or a out_of_fuel = a

-- A result that is known ends the run.
Ends-known :
    {D A : Type 0} (r : D × Result A) (a : A) (Q : D → Type 0)
    → r.1 ≡ ok a
    → Q r.0
    → Ends r (λ d' x. Q d' × (x ≡ a))
Ends-known (d, ok b) a Q e q = (q, ap (value_or a) e)
Ends-known (d, err x) a Q e q = absurd (ground (arith, e))
Ends-known (d, fault) a Q e q = absurd (ground (arith, e))
Ends-known (d, out_of_fuel) a Q e q = absurd (ground (arith, e))

open_loop_skip :
    (io : ByteDisk) (p : FatPrivate) (n fuel : ℕ) (fresh path : Mem) (i : ℕ) (root : Mem)
    (d : io.Dev)
    → (path i == b'/') ≡ false
    → (path i == 0) ≡ false
    → open_loop io p (suc n) fuel fresh path i 0 root no_file d
      ≡ open_loop io p n fuel fresh path (i + 1) 0 root no_file d
unfolding open_loop
open_loop_skip io p n fuel fresh path i root d slash nul = rw (open_loop, slash, nul) refl

-- The characters in front of a separator are passed.
open_loop_pass :
    (io : ByteDisk) (p : FatPrivate) (n fuel : ℕ) (fresh path : Mem) (i len : ℕ) (root : Mem)
    (d : io.Dev)
    → ((k : ℕ) → k < len → (path k ≢ 0) × (path k ≢ b'/'))
    → i + n ≡ len
    → open_loop io p (n + 1) fuel fresh path i 0 root no_file d
      ≡ open_loop io p 1 fuel fresh path len 0 root no_file d
open_loop_pass io p zero fuel fresh path i len root d text e =
    let at : i ≡ len = omega arith in rw at refl
open_loop_pass io p (suc n) fuel fresh path i len root d text e =
    let slash : (path i == b'/') ≡ false = ground (arith, (text i (omega arith)).1) in
    let nul : (path i == 0) ≡ false = ground (arith, (text i (omega arith)).0) in
    let more : suc n + 1 ≡ suc (n + 1) = omega arith in
    rw more (
      open_loop_skip io p (n + 1) fuel fresh path i root d slash nul
      ∙ open_loop_pass io p n fuel fresh path (i + 1) len root d text (omega arith))

module _ (io : ByteDisk) (p : FatPrivate) (t : HasTable io p) (tab : ℕ → ℕ) (disk : Mem) (c : ℕ)
    (cs : List ℕ) where
  -- The root directory has, as the first shown entry with the name of the path, a file whose clusters are
  -- `f ∷ fs`.
  pub record IsRootFile (fuel : ℕ) (fresh root path : Mem) (len k f : ℕ) (fs : List ℕ)
      : Type 0 where
    pub text : (j : ℕ) → j < len → (path j ≢ 0) × (path j ≢ b'/')
    pub end : path len ≡ 0
    pub short : len + 1 < 261
    pub long_fuel : len < fuel
    pub name : Mem
    pub found_ext : Bool
    pub transformed : transform_fat_filename fuel (component path 0 len) ≡ some (name, found_ext)
    pub found : named io p t tab disk c cs fresh name ≡ some k
    pub plain : enters (entry_at (directory_bytes disk p (c ∷ cs) fresh) k) ≡ false
    pub chain :
        Chain tab p.cluster_count
          (dir_entry_get_start_cluster (entry_at (directory_bytes disk p (c ∷ cs) fresh) k))
          (f ∷ fs)
    pub fuel_enough : length fs < fuel

  -- The file that is opened.
  abbrev pub root_file : Mem → Mem → ℕ → ℕ → List ℕ → FatFile
  root_file fresh root k f fs = record {
    cluster_chain = f ∷ fs;
    direntry_cluster =
        add32 (dir_entry_get_start_cluster root) (k * dir_entry_size % w32 / p.cluster_size);
    direntry_cluster_offset = k * dir_entry_size % w32 % p.cluster_size;
    filesize = filesize_bytes (entry_at (directory_bytes disk p (c ∷ cs) fresh) k);
  }

  open_entry-Ends :
      (fuel : ℕ) (fresh root path : Mem) (len k f : ℕ) (fs : List ℕ) (d : io.Dev)
      → IsOpenable io p t tab disk c cs fuel root d
      → IsRootFile fuel fresh root path len k f fs
      → Ends (open_dir_entry io p fuel fresh root (component path 0 len) d) (λ d' o.
        Shows io p disk (c ∷ cs) d'
        × (o ≡ some (entry_at (directory_bytes disk p (c ∷ cs) fresh) k, k * dir_entry_size % w32)))
  unfolding finish
  open_entry-Ends fuel fresh root path len k f fs d o h =
      let r = open_dir_entry io p fuel fresh root (component path 0 len) d in
      let s : OpensOn io p t tab disk c cs fresh (some k) r =
        subst (λ x. OpensOn io p t tab disk c cs fresh x r) h.found
          (open_dir_entry-Opens io p t tab disk c cs fuel fresh root (component path 0 len) h.name
            h.found_ext d o h.transformed) in
      Ends-known r _ (Shows io p disk (c ∷ cs)) s.1 s.0

  still_holds :
      (fuel : ℕ) (root : Mem) (d d' : io.Dev)
      → IsOpenable io p t tab disk c cs fuel root d
      → Shows io p disk (c ∷ cs) d'
      → Holds io p t tab d'
  still_holds fuel root d d' o s =
      Holds-Keeps io p t tab d d' o.table
        (record { sound = s.sound; bytes = λ a. s.bytes a ∙ sym (o.bytes a) })

  last_component :
      (fuel : ℕ) (fresh root path : Mem) (len k f : ℕ) (fs : List ℕ) (d : io.Dev)
      → IsOpenable io p t tab disk c cs fuel root d
      → IsRootFile fuel fresh root path len k f fs
      → Ends
          (open_loop io p 1 fuel fresh path len 0 root no_file d)
          (λ d' r. r ≡ some (true, root_file fresh root k f fs))
  unfolding open_loop enter open_file located
  last_component fuel fresh root path len k f fs d o h =
      let slash : (path len == b'/') ≡ false = ground (arith, h.end) in
      let nul : (path len == 0) ≡ true = rw (h.end, ==_refl 0) refl in
      let e = entry_at (directory_bytes disk p (c ∷ cs) fresh) k in
      let at = located p root no_file (some (e, k * dir_entry_size % w32)) in
      rw (open_loop, slash, nul)
        (Ends-follow (enter io p fuel fresh root no_file (component path 0 len) d) _
          (λ d' x. Shows io p disk (c ∷ cs) d' × (x ≡ at)) _
          (Ends-follow (open_dir_entry io p fuel fresh root (component path 0 len) d) _ _ _
            (open_entry-Ends fuel fresh root path len k f fs d o h)
            (λ d' x r. (r.0, ap (located p root no_file) r.1)))
          (λ d' x r.
            rw (r.1, h.plain, r.1)
              (Ends-with_chain at.1 (filesize_bytes e)
                (cache_cluster_chain io p fuel (dir_entry_get_start_cluster e) d') (f ∷ fs)
                (Ends-weaken (cache_cluster_chain io p fuel (dir_entry_get_start_cluster e) d') _ _
                  (cache_cluster_chain-Chain io p t tab fuel (dir_entry_get_start_cluster e) f fs d'
                    (still_holds fuel root d d' o r.0) h.chain h.fuel_enough)
                  (λ d2 x q. q.1)))))

  -- If the root directory can be read and its first shown entry with the name of the path is a file
  -- with a chain, opening the path gives a file with that chain, the size of the entry, and the place
  -- that is computed from the entry's offset in the directory, taken modulo 2 ^ 32: the first cluster
  -- of the root plus the quotient of the offset by the cluster size, which is the entry's own cluster
  -- only where the clusters of the root follow one another, and the remainder as the offset within
  -- the cluster.
  pub fat32_open-IsRootFile :
      (fuel : ℕ) (fresh root path : Mem) (len k f : ℕ) (fs : List ℕ) (d : io.Dev)
      → IsOpenable io p t tab disk c cs fuel root d
      → IsRootFile fuel fresh root path len k f fs
      → Ends
          (fat32_open io p fuel fresh root path d)
          (λ d' r. r ≡ some (true, root_file fresh root k f fs))
  unfolding fat32_open open_loop enter open_file located
  fat32_open-IsRootFile fuel fresh root path len k f fs d o h =
      let size : strlen fuel path 0 ≡ some len =
        strlen_lem fuel path 0 len
          (λ j lt z. (h.text j lt).0 (ap path (omega (arith, h.short)) ∙ z))
          (ap path (omega (arith, h.short)) ∙ h.end) h.long_fuel in
      let short : leb fat32_max_filename_length (len + 1) ≡ false =
        lt→leb_false 261 (len + 1) h.short in
      let slash : (path len == b'/') ≡ false = ground (arith, h.end) in
      let nul : (path len == 0) ≡ true = rw (h.end, ==_refl 0) refl in
      rw
        (
          fat32_open,
          size,
          short,
          open_loop_pass io p len fuel fresh path 0 len root d h.text (omega arith),
        )
        (Ends-or_null (open_loop io p 1 fuel fresh path len 0 root no_file d) _
          (last_component fuel fresh root path len k f fs d o h))
