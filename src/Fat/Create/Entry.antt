-- ===== src/Fat/Create/Entry.antt =====
-- An entry that is appended stands in the last cluster of its directory, with a cluster of its own.
use light_loader.Common.{
  ℕ, ◌+◌, ◌*◌, ◌/◌, ◌≤◌, ◌<◌, ◌≡◌, ◌≢◌, refl, ap, sym, ◌∙◌, ◌⊎◌, true, arith, lt→ltb, List, ◌∷◌,
  length, negsuc,
}
use mathlib.Core.Path.{subst}
use native.Mathlib.Nat.{div-mul-le_self}
use light_loader.Common.Bytes.{Mem, store}
use light_loader.ByteDisk.{ByteDisk}
use light_loader.Disk.{copy_range}
use light_loader.Disk.Access.{copy_range-in, copy_range-out}
use light_loader.Fat.Results.{
  Result, ok, err, fault, out_of_fuel, M, Ends, Ends-follow, Ends-or_fail, follow, follow-Ends,
  replace_error,
}
use light_loader.Fat.{
  FatPrivate, fat32_cluster_eof, read_cluster, write_cluster, set_cluster, find_free_cluster,
  find_end_cluster,
}
use light_loader.Fat.Table.{HasTable, Keeps, Keeps-trans, entry, Stores, set_cluster-Ends}
use light_loader.Fat.Chain.{Chain, last, Holds, Holds-Keeps, find_end_cluster-Chain}
use light_loader.Fat.Free.{FirstFree, find_free_cluster-FirstFree}
use light_loader.Fat.Load.{place}
use light_loader.Fat.Directory.{dir_entry_size, is_directory, dir_entry_get_start_cluster}
use light_loader.Fat.Create.{
  free_entry, set_first_cluster, first_data, place_entry, dir_append_entry,
}
use light_loader.Fat.Create.Append.{
  IsLaidOut, Puts, read_cluster-Ends, write_cluster-Ends, Puts-entry, Puts-apart, Stores-cluster,
  IsSlot, free_entry-IsSlot,
}

module _ (io : ByteDisk) (p : FatPrivate) (t : HasTable io p) (g : IsLaidOut p io.reach)
    (tab : ℕ → ℕ) where
  -- The directory `dir` has a chain with the last cluster `l`, in which entry `room` is free.
  pub record IsAppendable (fuel : ℕ) (dir : Mem) (l room : ℕ) (d : io.Dev) : Type 0 where
    pub directory : is_directory dir ≡ true
    pub table : Holds io p t tab d
    pub first : ℕ
    pub others : List ℕ
    pub chain : Chain tab p.cluster_count (dir_entry_get_start_cluster dir) (first ∷ others)
    pub is_last : last first others ≡ l
    pub data_cluster : 2 ≤ l
    pub in_table : l ≤ p.cluster_count
    pub used : tab l ≢ 0
    pub fuel_enough : length others < fuel
    pub room_inner : room < p.cluster_size / dir_entry_size
    pub room_free : io.byte d (place p l + room * dir_entry_size) ≡ 0

  -- The new entry `e` with the cluster `f`, in the slot `slot` of the cluster `l`.
  pub record HasEntry (dir new : Mem) (l f slot : ℕ) (e : Mem) (d d' : io.Dev) : Type 0 where
    pub cluster_lo : 2 ≤ f
    pub cluster_hi : f < p.cluster_count
    pub was_free : tab f ≡ 0
    pub value : e ≡ set_first_cluster (store 4 new 28 0) f
    pub own_end : entry io p d' f ≡ fat32_cluster_eof
    pub other_values : (k : ℕ) → k ≤ p.cluster_count → k ≢ f → entry io p d' k ≡ tab k
    pub data_bytes :
        (j : ℕ) → j < p.cluster_size → io.byte d' (place p f + j) ≡ first_data dir new f j
    pub is_slot : IsSlot (λ x. io.byte d (place p l + x)) (p.cluster_size / dir_entry_size) slot
    pub written :
        (x : ℕ) → x < dir_entry_size → io.byte d' (place p l + (slot * dir_entry_size + x)) ≡ e x
    pub rest :
        (j : ℕ)
        → j < p.cluster_size
        → (j < slot * dir_entry_size) ⊎ (slot * dir_entry_size + dir_entry_size ≤ j)
        → io.byte d' (place p l + j) ≡ io.byte d (place p l + j)

  abbrev pub Appends : Mem → Mem → ℕ → io.Dev → io.Dev × Result Mem → Type 0
  Appends dir new l d (d', ok e) = (f : ℕ) × (slot : ℕ) × HasEntry dir new l f slot e d d'
  Appends dir new l d (d', err x) =
      Keeps io d d' × (x ≡ negsuc 0) × ((k : ℕ) → 2 ≤ k → k < p.cluster_count → tab k ≢ 0)
  Appends dir new l d (d', fault) = ⊥
  Appends dir new l d (d', out_of_fuel) = ⊥

  place_entry-Ends :
      (b : Mem) (l : ℕ) (e : Mem) (d : io.Dev)
      → io.Sound d
      → 2 ≤ l
      → l ≤ p.cluster_count
      → free_entry (p.cluster_size / dir_entry_size) b 0 < p.cluster_size / dir_entry_size
      → Ends (place_entry io p b l e d) (λ d' x.
        Puts io p t g
          (copy_range b
            (free_entry (p.cluster_size / dir_entry_size) b 0 * dir_entry_size)
            e
            0
            dir_entry_size)
          l
          d
          d'
        × (x ≡ e))
  unfolding place_entry
  place_entry-Ends b l e d s lo hi inner =
      let count = p.cluster_size / dir_entry_size in
      let bytes = copy_range b (free_entry count b 0 * dir_entry_size) e 0 dir_entry_size in
      rw (place_entry, lt→ltb (free_entry count b 0) count inner)
        (Ends-follow (write_cluster io p bytes l d) _ _ _
          (write_cluster-Ends io p t g bytes l d s lo hi) (λ d' x h. (h, refl)))

  -- The entry is there behind the three writes.
  three_writes :
      (dir new b : Mem) (l f slot : ℕ) (d d3 d4 d5 d6 : io.Dev)
      → Holds io p t tab d3
      → Keeps io d d3
      → 2 ≤ l
      → l ≤ p.cluster_count
      → tab l ≢ 0
      → 2 ≤ f
      → f < p.cluster_count
      → tab f ≡ 0
      → ((j : ℕ) → j < p.cluster_size → b j ≡ io.byte d (place p l + j))
      → IsSlot (λ x. io.byte d (place p l + x)) (p.cluster_size / dir_entry_size) slot
      → Puts io p t g (first_data dir new f) f d3 d4
      → Stores io p f fat32_cluster_eof d4 d5
      → Puts io p t g
          (copy_range b
            (slot * dir_entry_size)
            (set_first_cluster (store 4 new 28 0) f)
            0
            dir_entry_size)
          l
          d5
          d6
      → HasEntry dir new l f slot (set_first_cluster (store 4 new 28 0) f) d d6
  three_writes dir new b l f slot d d3 d4 d5 d6 h keeps lo hi used flo fhi z same slot_is w1 s w2 =
      let e = set_first_cluster (store 4 new 28 0) f in
      let ne : l ≢ f = λ (q : l ≡ f). used (ap tab q ∙ z) in
      let fits : slot * dir_entry_size + dir_entry_size ≤ p.cluster_size =
        omega (arith, slot_is.inner, div-mul-le_self p.cluster_size dir_entry_size) in
      record {
        cluster_lo = flo;
        cluster_hi = fhi;
        was_free = z;
        value = refl;
        own_end = Puts-entry io p t g _ l d5 d6 f lo w2 (omega arith) ∙ s.at;
        other_values = λ k le nk.
            Puts-entry io p t g _ l d5 d6 k lo w2 le
            ∙ s.other k nk
            ∙ Puts-entry io p t g _ f d3 d4 k flo w1 le
            ∙ h.table k;
        data_bytes = λ j lt.
            Puts-apart io p t g _ l f d5 d6 j lo flo (λ q. ne (sym q)) w2 lt
            ∙ Stores-cluster io p t g f fat32_cluster_eof f d4 d5 j s
            ∙ w1.inside j lt;
        is_slot = slot_is;
        written = λ x lt.
            w2.inside (slot * dir_entry_size + x) (omega arith)
            ∙ copy_range-in b e (slot * dir_entry_size) 0 dir_entry_size (slot * dir_entry_size + x)
                (omega arith) (omega arith)
            ∙ ap e (omega arith);
        rest = λ j lt o.
            w2.inside j lt
            ∙ copy_range-out b e (slot * dir_entry_size) 0 dir_entry_size j o
            ∙ same j lt;
      }

  -- What follows the search for a free cluster.
  abbrev behind_free : Mem → Mem → Mem → ℕ → ℕ → M io.Dev Mem
  behind_free dir new b l f d3 = follow (write_cluster io p (first_data dir new f) f d3) (λ _ d4.
      follow (set_cluster io p fat32_cluster_eof f d4)
        (λ _. place_entry io p b l (set_first_cluster (store 4 new 28 0) f)))

  after_free :
      (dir new b : Mem) (l room : ℕ) (d d2 : io.Dev) (r : io.Dev × Result ℕ)
      → Holds io p t tab d2
      → Keeps io d d2
      → 2 ≤ l
      → l ≤ p.cluster_count
      → tab l ≢ 0
      → ((j : ℕ) → j < p.cluster_size → b j ≡ io.byte d (place p l + j))
      → room < p.cluster_size / dir_entry_size
      → io.byte d (place p l + room * dir_entry_size) ≡ 0
      → FirstFree io p t tab 2 d2 r
      → Appends dir new l d (follow r (behind_free dir new b l))
  after_free dir new b l room d d2 (d3, ok f) h keeps lo hi used same rin rfree
        (k3, flo, fhi, z, least) =
      let count = p.cluster_size / dir_entry_size in
      let e = set_first_cluster (store 4 new 28 0) f in
      let h3 = Holds-Keeps io p t tab d2 d3 h k3 in
      let slot_is =
        free_entry-IsSlot count b (λ x. io.byte d (place p l + x)) p.cluster_size room
          (div-mul-le_self p.cluster_size dir_entry_size) same rfree rin in
      let S = Appends dir new l d in
      follow-Ends S (write_cluster io p (first_data dir new f) f d3) _ _
        (write_cluster-Ends io p t g (first_data dir new f) f d3 h3.sound flo (omega arith))
        (λ d4 _ w1.
          follow-Ends S (set_cluster io p fat32_cluster_eof f d4) _ _
            (set_cluster-Ends io p fat32_cluster_eof f d4 t w1.sound (omega arith))
            (λ d5 _ s.
              written d4 d5 w1 s h3 (Keeps-trans io keeps k3) slot_is (place_entry io p b l e d5)
                (place_entry-Ends b l e d5 s.sound lo hi slot_is.inner)))
    where
      written :
          (d4 d5 : io.Dev)
          → Puts io p t g (first_data dir new f) f d3 d4
          → Stores io p f fat32_cluster_eof d4 d5
          → Holds io p t tab d3
          → Keeps io d d3
          → IsSlot
              (λ x. io.byte d (place p l + x))
              (p.cluster_size / dir_entry_size)
              (free_entry (p.cluster_size / dir_entry_size) b 0)
          → (r : io.Dev × Result Mem)
          → Ends r (λ d' x.
            Puts io p t g
              (copy_range b
                (free_entry (p.cluster_size / dir_entry_size) b 0 * dir_entry_size)
                (set_first_cluster (store 4 new 28 0) f)
                0
                dir_entry_size)
              l
              d5
              d'
            × (x ≡ set_first_cluster (store 4 new 28 0) f))
          → Appends dir new l d r
      written d4 d5 w1 s h3 k slot_is (d6, ok x) (w2, q) =
          let slot = free_entry (p.cluster_size / dir_entry_size) b 0 in
          (
            f,
            slot,
            subst (λ y. HasEntry dir new l f slot y d d6) (sym q)
                (three_writes dir new b l f slot d d3 d4 d5 d6 h3 k lo hi used flo fhi z same
                  slot_is w1 s w2),
          )
      written d4 d5 w1 s h3 k slot_is (d6, err x) bad = absurd bad
      written d4 d5 w1 s h3 k slot_is (d6, fault) bad = absurd bad
      written d4 d5 w1 s h3 k slot_is (d6, out_of_fuel) bad = absurd bad
  after_free dir new b l room d d2 (d3, err x) h keeps lo hi used same rin rfree (k3, q, full) =
      (Keeps-trans io keeps k3, q, full)
  after_free dir new b l room d d2 (d3, fault) h keeps lo hi used same rin rfree bad = bad
  after_free dir new b l room d d2 (d3, out_of_fuel) h keeps lo hi used same rin rfree bad = bad

  -- On a volume whose clusters stand behind its table, for a directory whose last cluster is in use
  -- and has a free entry: appending gives an entry in the first free slot, with a cluster that was
  -- free, is marked as the end of a chain and holds the first data; the other entries of that cluster
  -- and the values of all other clusters stay. Or the result is -1, no cluster from 2 up to, and not
  -- including, the cluster count is free, and the disk's bytes stay.
  pub dir_append_entry-Appends :
      (fuel : ℕ) (fresh dir new : Mem) (l room : ℕ) (d : io.Dev)
      → IsAppendable fuel dir l room d
      → Appends dir new l d (dir_append_entry io p fuel fresh dir new d)
  unfolding dir_append_entry
  dir_append_entry-Appends fuel fresh dir new l room d a =
      let S = Appends dir new l d in
      let start = dir_entry_get_start_cluster dir in
      rw a.directory (
        follow-Ends S (replace_error (negsuc 1) (find_end_cluster io p fuel start d)) _ _
          (Ends-or_fail (negsuc 1) (find_end_cluster io p fuel start d) _ (
            find_end_cluster-Chain io p t tab fuel start a.first a.others d a.table a.chain
              a.fuel_enough))
          (λ d1 x r1.
            let h1 = Holds-Keeps io p t tab d d1 a.table r1.0 in
            let at : x ≡ l = r1.1 ∙ a.is_last in
            rw at (
              follow-Ends S (read_cluster io p fresh l d1) _ _
                (read_cluster-Ends io p t g fresh l d1 h1.sound a.data_cluster a.in_table)
                (λ d2 b r2.
                  let h2 = Holds-Keeps io p t tab d1 d2 h1 r2.0 in
                  after_free dir new b l room d d2 (find_free_cluster io p d2) h2
                    (Keeps-trans io r1.0 r2.0) a.data_cluster a.in_table a.used
                    (λ j lt. r2.1 j lt ∙ r1.0.bytes (place p l + j)) a.room_inner a.room_free
                    (find_free_cluster-FirstFree io p t tab d2 h2 g.count_pos)))))
