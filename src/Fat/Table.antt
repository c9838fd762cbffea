-- ===== src/Fat/Table.antt =====
-- The file allocation table on the disk: what is loaded from it and stored in it.
use light_loader.Common.{
  ℕ, zero, suc, ◌+◌, ◌*◌, ◌%◌, ◌≤◌, ◌<◌, ◌≡◌, ◌≢◌, refl, ap, sym, ◌∙◌, ◌⊎◌, arith, ge→ltb, w32, w64,
  ℤ, pos, negsuc,
}
use light_loader.Common.Bytes.{Mem, load, load-SameOn, load-store_self}
use light_loader.ByteDisk.{ByteDisk}
use light_loader.Fat.Results.{ok, Ends, Ends-follow, Ends-weaken, lift_read, lift_write}
use light_loader.Fat.{
  FatPrivate, table_offset, read_bytes, write_bytes, load_cluster, set_cluster, word_bytes,
}

pub lift_read-ok : {D : Type 0} (r : D × Mem × ℤ) → r.2 ≡ pos 0 → lift_read r ≡ (r.0, ok r.1)
lift_read-ok (d, b, pos zero) e = refl
lift_read-ok (d, b, pos (suc n)) e = absurd (ground arith)
lift_read-ok (d, b, negsuc n) e = absurd (ground arith)

pub lift_write-ok : {D : Type 0} (r : D × ℤ) → r.1 ≡ pos 0 → lift_write r ≡ (r.0, ok tt)
lift_write-ok (d, pos zero) e = refl
lift_write-ok (d, pos (suc n)) e = absurd (ground arith)
lift_write-ok (d, negsuc n) e = absurd (ground arith)

-- A load depends on the bytes that it reads only.
pub load-at :
    (w : ℕ) (m m' : Mem) (a a' : ℕ)
    → ((j : ℕ) → j < w → m (a + j) ≡ m' (a' + j))
    → load w m a ≡ load w m' a'
unfolding load
load-at zero m m' a a' h = refl
load-at (suc w) m m' a a' h =
    let first : m a ≡ m' a' = ap m (omega arith) ∙ h 0 (omega arith) ∙ ap m' (omega arith) in
    omega (
      arith,
      first,
      load-at w m m' (a + 1) (a' + 1)
          (λ j lt. ap m (omega arith) ∙ h (suc j) (omega arith) ∙ ap m' (omega arith)),
    )

load-word_bytes : (v : ℕ) → v < w32 → load 4 (word_bytes v) 0 ≡ v
unfolding word_bytes
load-word_bytes v lt = load-store_self 4 (λ _. 0) 0 v (omega arith)

module _ (io : ByteDisk) where
  -- A device that is still sound, with the same bytes.
  pub record Keeps (d d' : io.Dev) : Type 0 where
    pub sound : io.Sound d'
    pub bytes : (a : ℕ) → io.byte d' a ≡ io.byte d a

  -- The table's value for a cluster, on the disk.
  unfoldable pub entry : FatPrivate → io.Dev → ℕ → ℕ
  entry p d cluster = load 4 (io.byte d) (p.first_cluster_offset + cluster * 4) % 0x10000000

  -- A load from a volume whose table lies within reach.
  pub record HasTable (p : FatPrivate) : Type 0 where
    pub within : p.first_cluster_offset + p.cluster_count * 4 + 4 ≤ io.reach
    pub small : io.reach < w64

  table_offset-eq :
      (p : FatPrivate) (c : ℕ)
      → HasTable p
      → c ≤ p.cluster_count
      → table_offset p c ≡ p.first_cluster_offset + c * 4
  unfolding table_offset
  table_offset-eq p c t le = omega (arith, t.within, t.small)

  pub Keeps-trans : {a b c : io.Dev} → Keeps a b → Keeps b c → Keeps a c
  Keeps-trans s t = record { sound = t.sound; bytes = λ x. t.bytes x ∙ s.bytes x }

  pub entry-Keeps :
      (p : FatPrivate) (d d' : io.Dev) (c : ℕ) → Keeps d d' → entry p d' c ≡ entry p d c
  unfolding entry
  entry-Keeps p d d' c k =
      ap (λ x. x % 0x10000000)
        (load-SameOn 4 (io.byte d) (io.byte d') (p.first_cluster_offset + c * 4)
          (p.first_cluster_offset + c * 4 + 4) (omega arith) (λ x l u. k.bytes x))

  pub read_bytes-Ends :
      (p : FatPrivate) (b : Mem) (size offset : ℕ) (d : io.Dev)
      → io.Sound d
      → offset + size ≤ io.reach
      → Ends
          (read_bytes io p b size offset d)
          (λ d' r. Keeps d d' × ((j : ℕ) → j < size → r j ≡ io.byte d (offset + j)))
  unfolding read_bytes
  read_bytes-Ends p b size offset d s le =
      rw (lift_read-ok (io.f_read d b size offset) (io.read_ok d b size offset s le)) (
        record {
          sound = io.read_sound d b size offset s le;
          bytes = λ a. io.read_keeps d b size offset a s le;
        },
        λ j lt. io.read_inside d b size offset j s le lt,
      )

  -- Loading a cluster's value gives the value on the disk.
  pub load_cluster-Ends :
      (p : FatPrivate) (c : ℕ) (d : io.Dev)
      → HasTable p
      → io.Sound d
      → c ≤ p.cluster_count
      → Ends (load_cluster io p c d) (λ d' v. Keeps d d' × (v ≡ entry p d c))
  unfolding load_cluster
  load_cluster-Ends p c d t s le =
      let off = table_offset-eq p c t le in
      let inside : table_offset p c + 4 ≤ io.reach = omega (arith, off, t.within) in
      rw (ge→ltb p.cluster_count c le) (
        Ends-follow (read_bytes io p (λ _. 0) 4 (table_offset p c) d) _ _ _
          (read_bytes-Ends p (λ _. 0) 4 (table_offset p c) d s inside)
          (λ d' b r. (
            r.0,
            unfold entry in
                ap (λ x. x % 0x10000000)
                  (load-at 4 b (io.byte d) 0 (p.first_cluster_offset + c * 4)
                    (λ j lt. ap b (omega arith) ∙ r.1 j lt ∙ ap (λ x. io.byte d (x + j)) off)),
          )))

  pub write_bytes-Ends :
      (p : FatPrivate) (b : Mem) (size offset : ℕ) (d : io.Dev)
      → io.Sound d
      → offset + size ≤ io.reach
      → Ends (write_bytes io p b size offset d) (λ d' r.
        io.Sound d'
        × ((j : ℕ) → j < size → io.byte d' (offset + j) ≡ b j)
        × ((a : ℕ) → (a < offset) ⊎ (offset + size ≤ a) → io.byte d' a ≡ io.byte d a))
  unfolding write_bytes
  write_bytes-Ends p b size offset d s le =
      rw (lift_write-ok (io.f_write d b size offset) (io.write_ok d b size offset s le)) (
        io.write_sound d b size offset s le,
        (λ j lt. io.write_inside d b size offset j s le lt),
        (λ a o. io.write_outside d b size offset a s le o),
      )

  -- The table behind a store: the value of one cluster is set, the rest of the disk is as it was.
  pub record Stores (p : FatPrivate) (c v : ℕ) (d d' : io.Dev) : Type 0 where
    pub sound : io.Sound d'
    pub at : entry p d' c ≡ v % 0x10000000
    pub other : (k : ℕ) → k ≢ c → entry p d' k ≡ entry p d k
    pub outside :
        (a : ℕ)
        → (a < p.first_cluster_offset) ⊎ (p.first_cluster_offset + p.cluster_count * 4 + 4 ≤ a)
        → io.byte d' a ≡ io.byte d a

  pub set_cluster-Ends :
      (p : FatPrivate) (v c : ℕ) (d : io.Dev)
      → HasTable p
      → io.Sound d
      → c ≤ p.cluster_count
      → Ends (set_cluster io p v c d) (λ d' r. Stores p c v d d')
  unfolding set_cluster
  set_cluster-Ends p v c d t s le =
      let off = table_offset-eq p c t le in
      let inside : table_offset p c + 4 ≤ io.reach = omega (arith, off, t.within) in
      let value = word_bytes (v % 0x10000000) in
      rw (ge→ltb p.cluster_count c le) (
        Ends-weaken (write_bytes io p value 4 (table_offset p c) d) _ _
          (write_bytes-Ends p value 4 (table_offset p c) d s inside)
          (λ d' r w. record {
            sound = w.0;
            at =
                unfold entry in
                ap (λ x. x % 0x10000000)
                  (load-at 4 (io.byte d') value (p.first_cluster_offset + c * 4) 0 (λ j lt.
                      ap (λ x. io.byte d' (x + j)) (sym off) ∙ w.1 j lt ∙ ap value (omega arith))
                    ∙ load-word_bytes (v % 0x10000000) (omega arith))
                ∙ omega arith;
            other = λ k ne.
                unfold entry in
                ap (λ x. x % 0x10000000)
                  (load-at 4 (io.byte d') (io.byte d) _ _
                    (λ j lt. w.2 (p.first_cluster_offset + k * 4 + j) (grind (arith, off))));
            outside = λ a o. w.2 a (grind (arith, off, le));
          }))
