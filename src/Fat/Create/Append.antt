-- ===== src/Fat/Create/Append.antt =====
-- What the steps of appending an entry do: clusters that are read and written, and the free slot.
use light_loader.Common.{
  ℕ, zero, suc, ◌+◌, ◌-◌, ◌*◌, ◌%◌, ◌≤◌, ◌<◌, ◌≡◌, ◌≢◌, ap, sym, ◌∙◌, ◌⊎◌, inl, inr, arith, negsuc,
  le-or-lt, ge→ltb, ◌==◌, ==_iff, Bool-cases,
}
use native.Mathlib.Nat.{mul-le-mul_right, add-mul, mul_assoc}
use light_loader.Common.Bytes.{Mem, load-SameOn}
use light_loader.ByteDisk.{ByteDisk}
use light_loader.Fat.Results.{Ends, Ends-weaken, Ends-or_fail}
use light_loader.Fat.{
  FatPrivate, fat32_cluster_limit, read_bytes, write_bytes, read_cluster, write_cluster,
}
use light_loader.Fat.Table.{HasTable, Keeps, entry, Stores, read_bytes-Ends, write_bytes-Ends}
use light_loader.Fat.Load.{place, IsPlaced, cluster_offset-IsPlaced}
use light_loader.Fat.Directory.{dir_entry_size}
use light_loader.Fat.Create.{free_entry}

-- The clusters stand behind the table, one behind the other, within reach.
pub record IsLaidOut (p : FatPrivate) (reach : ℕ) : Type 0 where
  pub size : p.cluster_size ≡ p.sectors_per_cluster * p.bytes_per_sector
  pub size_pos : 0 < p.cluster_size
  pub behind :
      p.first_cluster_offset + p.cluster_count * 4 + 4
      ≤ p.usable_clusters_start * p.bytes_per_sector
  pub placed : (c : ℕ) → 2 ≤ c → c ≤ p.cluster_count → IsPlaced p reach c
  pub count_pos : 0 < p.cluster_count
  pub few : p.cluster_count < fat32_cluster_limit

place-eq :
    (p : FatPrivate) (reach c : ℕ)
    → IsLaidOut p reach
    → place p c ≡ p.usable_clusters_start * p.bytes_per_sector + (c - 2) * p.cluster_size
place-eq p reach c l =
    add-mul p.usable_clusters_start ((c - 2) * p.sectors_per_cluster) p.bytes_per_sector
    ∙ ap (λ x. p.usable_clusters_start * p.bytes_per_sector + x)
        (mul_assoc (c - 2) p.sectors_per_cluster p.bytes_per_sector
          ∙ ap (λ x. (c - 2) * x) (sym l.size))

-- Two clusters have no byte in common.
place-apart :
    (p : FatPrivate) (reach b c : ℕ)
    → IsLaidOut p reach
    → 2 ≤ b
    → b < c
    → place p b + p.cluster_size ≤ place p c
place-apart p reach b c l lo lt =
    let next : (b - 2) * p.cluster_size + 1 * p.cluster_size ≤ (c - 2) * p.cluster_size =
      omega (
        arith,
        mul-le-mul_right p.cluster_size (step b c lo lt),
        add-mul (b - 2) 1 p.cluster_size,
      ) in
    omega (arith, place-eq p reach b l, place-eq p reach c l)
  where
    step : (b c : ℕ) → 2 ≤ b → b < c → b - 2 + 1 ≤ c - 2
    step b c lo lt = omega arith

module _ (io : ByteDisk) (p : FatPrivate) (t : HasTable io p) (g : IsLaidOut p io.reach) where
  pub read_cluster-Ends :
      (b : Mem) (c : ℕ) (d : io.Dev)
      → io.Sound d
      → 2 ≤ c
      → c ≤ p.cluster_count
      → Ends
          (read_cluster io p b c d)
          (λ d' r. Keeps io d d' × ((j : ℕ) → j < p.cluster_size → r j ≡ io.byte d (place p c + j)))
  unfolding read_cluster
  read_cluster-Ends b c d s lo hi =
      let h = g.placed c lo hi in
      let at = cluster_offset-IsPlaced p io.reach c t.small h g.size_pos in
      rw (ge→ltb c 2 lo, at)
        (Ends-or_fail (negsuc 1) (read_bytes io p b p.cluster_size (place p c) d) _
          (read_bytes-Ends io p b p.cluster_size (place p c) d s h.within))

  -- The disk behind the write of a cluster.
  pub record Puts (b : Mem) (c : ℕ) (d d' : io.Dev) : Type 0 where
    pub sound : io.Sound d'
    pub inside : (j : ℕ) → j < p.cluster_size → io.byte d' (place p c + j) ≡ b j
    pub outside :
        (a : ℕ) → (a < place p c) ⊎ (place p c + p.cluster_size ≤ a) → io.byte d' a ≡ io.byte d a

  pub write_cluster-Ends :
      (b : Mem) (c : ℕ) (d : io.Dev)
      → io.Sound d
      → 2 ≤ c
      → c ≤ p.cluster_count
      → Ends (write_cluster io p b c d) (λ d' r. Puts b c d d')
  unfolding write_cluster
  write_cluster-Ends b c d s lo hi =
      let h = g.placed c lo hi in
      let at = cluster_offset-IsPlaced p io.reach c t.small h g.size_pos in
      rw (ge→ltb c 2 lo, at)
        (Ends-or_fail (negsuc 1) (write_bytes io p b p.cluster_size (place p c) d) _ (
          Ends-weaken (write_bytes io p b p.cluster_size (place p c) d) _ _
            (write_bytes-Ends io p b p.cluster_size (place p c) d s h.within)
            (λ d' r w. record { sound = w.0; inside = w.1; outside = w.2 })))

  -- A cluster that is written leaves the table alone.
  pub Puts-entry :
      (b : Mem) (c : ℕ) (d d' : io.Dev) (k : ℕ)
      → 2 ≤ c
      → Puts b c d d'
      → k ≤ p.cluster_count
      → entry io p d' k ≡ entry io p d k
  unfolding entry
  Puts-entry b c d d' k lo w le =
      ap (λ x. x % 0x10000000)
        (load-SameOn 4 (io.byte d) (io.byte d') (p.first_cluster_offset + k * 4)
          (p.first_cluster_offset + k * 4 + 4) (omega arith)
          (λ x l u. w.outside x (inl (omega (arith, place-eq p io.reach c g, g.behind)))))

  -- A write behind the table's start and in front of a cluster, or in another cluster.
  pub Puts-apart :
      (b : Mem) (c k : ℕ) (d d' : io.Dev) (j : ℕ)
      → 2 ≤ c
      → 2 ≤ k
      → k ≢ c
      → Puts b c d d'
      → j < p.cluster_size
      → io.byte d' (place p k + j) ≡ io.byte d (place p k + j)
  Puts-apart b c k d d' j lo lk ne w lt = elim (le-or-lt c k) [
    | inl ge ↦
        w.outside (place p k + j)
          (inr (omega (arith, place-apart p io.reach c k g lo (omega arith))))
    | inr less ↦
        w.outside (place p k + j) (inl (omega (arith, place-apart p io.reach k c g lk less)))
  ]

  pub Stores-cluster :
      (c v k : ℕ) (d d' : io.Dev) (j : ℕ)
      → Stores io p c v d d'
      → io.byte d' (place p k + j) ≡ io.byte d (place p k + j)
  Stores-cluster c v k d d' j s =
      s.outside (place p k + j) (inr (omega (arith, place-eq p io.reach k g, g.behind)))

-- The slot is the first of the `count` entries whose name begins with 0.
pub record IsSlot (bytes : Mem) (count slot : ℕ) : Type 0 where
  pub inner : slot < count
  pub free : bytes (slot * dir_entry_size) ≡ 0
  pub least : (k : ℕ) → k < slot → bytes (k * dir_entry_size) ≢ 0

free_entry_lem :
    (n : ℕ) (b : Mem) (i k : ℕ)
    → b (k * dir_entry_size) ≡ 0
    → i ≤ k
    → k < i + n
    → (i ≤ free_entry n b i)
      × (free_entry n b i ≤ k)
      × (b (free_entry n b i * dir_entry_size) ≡ 0)
      × ((j : ℕ) → i ≤ j → j < free_entry n b i → b (j * dir_entry_size) ≢ 0)
unfolding free_entry
free_entry_lem zero b i k z le lt = absurd (omega arith)
free_entry_lem (suc n) b i k z le lt = elim (Bool-cases (b (i * dir_entry_size) == 0)) [
  | inl here ↦ rw here (omega arith, le, (==_iff _ 0).0 here, λ j lo hi. absurd (omega arith))
  | inr used ↦
      let ne : b (i * dir_entry_size) ≢ 0 = λ q. ground (arith, q) in
      let later : i ≢ k = λ (q : i ≡ k). ne (ap (λ x. b (x * dir_entry_size)) q ∙ z) in
      let ih = free_entry_lem n b (i + 1) k z (omega (arith, later)) (omega arith) in
      rw used (
        omega (arith, ih.0),
        ih.1,
        ih.2,
        λ j lo hi. elim (le-or-lt j i) [
          | inl first ↦ λ q. ne (ap (λ x. b (x * dir_entry_size)) (omega arith) ∙ q)
          | inr more ↦ ih.3 j (omega arith) hi
        ],
      )
]

pub free_entry-IsSlot :
    (count : ℕ) (b bytes : Mem) (size k : ℕ)
    → count * dir_entry_size ≤ size
    → ((j : ℕ) → j < size → b j ≡ bytes j)
    → bytes (k * dir_entry_size) ≡ 0
    → k < count
    → IsSlot bytes count (free_entry count b 0)
free_entry-IsSlot count b bytes size k le same z lt =
    let at : (j : ℕ) → j < count → b (j * dir_entry_size) ≡ bytes (j * dir_entry_size) =
      λ j l. same (j * dir_entry_size) (omega arith) in
    let h = free_entry_lem count b 0 k (at k lt ∙ z) (omega arith) (omega arith) in
    let inner : free_entry count b 0 < count = omega (arith, h.1) in
    record {
      inner = inner;
      free = sym (at (free_entry count b 0) inner) ∙ h.2;
      least = λ j l q. h.3 j (omega arith) l (at j (omega arith) ∙ q);
    }
