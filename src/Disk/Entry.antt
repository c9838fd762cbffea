-- ===== src/Disk/Entry.antt =====
-- One block of `__write`: what writing an entry does to the disk and to the cache.
use light_loader.Common.{
  ℕ, ◌+◌, ◌*◌, ◌/◌, ◌%◌, ◌≤◌, ◌<◌, ◌≡◌, ◌≢◌, refl, ap, sym, ◌∙◌, ◌⊎◌, inl, inr, false, ◌==◌, arith,
  Bool-cases, ==_iff,
}
use native.Mathlib.Nat.{div-add-mod}
use light_loader.Disk.{BlockIo, Device, copy_range, write_entry}
use light_loader.Disk.Select.{HoldsBlock}
use light_loader.Disk.Coherence.{Coherent, SameDisk, update_ne, update_at}
use light_loader.Disk.Access.{same_block, copy_range-in, copy_range-out, disk_byte}

-- The firmware reads and writes without errors.
pub record Reliable (io : BlockIo) : Type 0 where
  pub reads : (s : io.Store) (b : ℕ) → io.read_error s b ≡ false
  pub writes : (s : io.Store) (b : ℕ) → io.write_error s b ≡ false

before_in_block : (at a ss : ℕ) → a / ss ≡ at / ss → a < at → a % ss < at % ss
before_in_block at a ss q lt =
    omega (arith, div-add-mod at ss, div-add-mod a ss, ap (λ x. ss * x) q)

behind_in_block : (at a n ss : ℕ) → a / ss ≡ at / ss → at + n ≤ a → at % ss + n ≤ a % ss
behind_in_block at a n ss q le =
    omega (arith, div-add-mod at ss, div-add-mod a ss, ap (λ x. ss * x) q)

module _ {io : BlockIo} where
  -- The parts of the device that a write leaves alone.
  pub record SameShape (dev dev' : Device io) : Type 0 where
    pub first : dev'.first_sector ≡ dev.first_sector
    pub sector : dev'.sector_size ≡ dev.sector_size
    pub effective : dev'.effective_sector_size ≡ dev.effective_sector_size

  pub SameShape-trans : {a b c : Device io} → SameShape a b → SameShape b c → SameShape a c
  SameShape-trans s t = record {
    first = t.first ∙ s.first;
    sector = t.sector ∙ s.sector;
    effective = t.effective ∙ s.effective;
  }

  pub SameDisk-SameShape : {a b : Device io} → SameDisk a b → SameShape a b
  SameDisk-SameShape s = record { first = s.first; sector = s.sector; effective = s.effective }

  -- Block `b` of the disk is written through entry `idx`, which holds it.
  pub write_entry-Coherent :
      (dev : Device io) (idx b : ℕ) (buffer : ℕ → ℕ) (current delta n : ℕ)
      → Coherent dev
      → idx < 8
      → HoldsBlock dev.cache b idx
      → io.write_error dev.store b ≡ false
      → Coherent (write_entry dev idx b buffer current delta n).0
  unfolding write_entry
  write_entry-Coherent dev idx b buffer current delta n c lt (used, holds) ok =
      let bytes = copy_range (dev.cache.buffer idx) delta buffer current n in
      record {
        allocated = c.allocated;
        oldest = c.oldest;
        through = c.through;
        agrees = λ i j l d. elim (Bool-cases (i == idx)) [
          | inl e ↦
              ap (λ (v : ℕ → ℕ). v j) (update_at dev.cache.buffer idx i bytes e)
              ∙ sym (
                  rw ok (
                    ap (λ k. io.contents (io.put dev.store b bytes) k j)
                      (ap dev.cache.block ((==_iff i idx).0 e) ∙ holds)
                    ∙ io.put_self dev.store b bytes j ok))
          | inr e ↦
              let apart : dev.cache.block i ≢ b =
                λ q. ground (arith, c.unique i idx l lt d used (q ∙ sym holds)) in
              ap (λ (v : ℕ → ℕ). v j) (update_ne dev.cache.buffer idx i bytes e)
              ∙ c.agrees i j l d
              ∙ sym (rw ok (io.put_ne dev.store b (dev.cache.block i) bytes j ok apart))
        ];
        unique = c.unique;
      }

  pub write_entry_ok :
      (dev : Device io) (idx b : ℕ) (buffer : ℕ → ℕ) (current delta n : ℕ)
      → io.write_error dev.store b ≡ false
      → (write_entry dev idx b buffer current delta n).1 ≡ false
  unfolding write_entry
  write_entry_ok dev idx b buffer current delta n ok = ok

  pub entry_sector :
      (dev : Device io) (idx b : ℕ) (buffer : ℕ → ℕ) (current delta n : ℕ)
      → (write_entry dev idx b buffer current delta n).0.sector_size ≡ dev.sector_size
  unfolding write_entry
  entry_sector dev idx b buffer current delta n = refl

  pub SameShape-entry :
      (a dev : Device io) (idx b : ℕ) (buffer : ℕ → ℕ) (current delta n : ℕ)
      → SameShape a dev
      → SameShape a (write_entry dev idx b buffer current delta n).0
  unfolding write_entry
  SameShape-entry a dev idx b buffer current delta n s = record {
    first = s.first;
    sector = s.sector;
    effective = s.effective;
  }

  -- What is on the disk then: in block `b` the entry's bytes, elsewhere what was there.
  pub write_entry-inside :
      (dev : Device io) (ss idx at : ℕ) (buffer : ℕ → ℕ) (current n k : ℕ)
      → dev.sector_size ≡ ss
      → 0 < ss
      → io.write_error dev.store (at / ss) ≡ false
      → at % ss + n ≤ ss
      → k < n
      → disk_byte (write_entry dev idx (at / ss) buffer current (at % ss) n).0 (at + k)
        ≡ buffer (current + k)
  unfolding write_entry disk_byte
  write_entry-inside dev ss idx at buffer current n k es p ok fits lt =
      let (q, r) = same_block at k ss p (omega arith) in
      let delta = at % ss in
      let bytes = copy_range (dev.cache.buffer idx) delta buffer current n in
      rw (ok, disk_byte, es, q, r)
        (io.put_self dev.store (at / ss) bytes (delta + k) ok
          ∙ copy_range-in (dev.cache.buffer idx) buffer delta current n (delta + k) (omega arith)
              (omega arith)
          ∙ ap buffer (omega arith))

  pub write_entry-outside :
      (dev : Device io) (ss idx at : ℕ) (buffer : ℕ → ℕ) (current n a : ℕ)
      → dev.sector_size ≡ ss
      → Coherent dev
      → idx < 8
      → HoldsBlock dev.cache (at / ss) idx
      → io.write_error dev.store (at / ss) ≡ false
      → (a < at) ⊎ (at + n ≤ a)
      → disk_byte (write_entry dev idx (at / ss) buffer current (at % ss) n).0 a ≡ disk_byte dev a
  unfolding write_entry disk_byte
  write_entry-outside dev ss idx at buffer current n a es c lt (used, holds) ok o =
      let b = at / ss in
      let delta = at % ss in
      let bytes = copy_range (dev.cache.buffer idx) delta buffer current n in
      let off = a % ss in
      elim (Bool-cases (a / ss == b)) [
        | inl e ↦
            let q : a / ss ≡ b = (==_iff _ _).0 e in
            let apart : (off < delta) ⊎ (delta + n ≤ off) = elim o [
              | inl lo ↦ inl (before_in_block at a ss q lo)
              | inr hi ↦ inr (behind_in_block at a n ss q hi)
            ] in
            rw (ok, disk_byte, es, q)
              (io.put_self dev.store b bytes off ok
                ∙ copy_range-out (dev.cache.buffer idx) buffer delta current n off apart
                ∙ c.agrees idx off lt used
                ∙ ap (λ k. io.contents dev.store k off) holds)
        | inr e ↦
            rw (ok, disk_byte, es)
              (io.put_ne dev.store b (a / ss) bytes off ok (λ q. ground (arith, q)))
      ]
