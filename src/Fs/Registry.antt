-- ===== src/Fs/Registry.antt =====
-- Which file system a device is mounted with, and how registering is undone.
use light_loader.Common.{
  ℕ, zero, suc, ◌≡◌, ◌≢◌, refl, inl, inr, ◌==◌, ==_refl, if◌then◌else◌, Bool-cases, true, false,
  arith, Option, none, some, List, [], ◌∷◌, ℤ, pos, negsuc,
}
use light_loader.Fs.{
  FileSystem, Mount, find_fs, link_fs, register_fs, unregister_fs, FileSystems, probe_loop,
  mount_found, disk_probe_fs,
}

find_fs-link : (l : List FileSystem) (fs : FileSystem) → find_fs (link_fs l fs) fs.address ≡ true
unfolding find_fs link_fs
find_fs-link [] fs = rw (==_refl fs.address) refl
find_fs-link (x ∷ rest) fs = elim (Bool-cases (x.address == fs.address)) [
  | inl e ↦ rw e refl
  | inr e ↦ rw e (find_fs-link rest fs)
]

unregister-link :
    (l : List FileSystem) (fs : FileSystem)
    → find_fs l fs.address ≡ false
    → unregister_fs (link_fs l fs) fs ≡ (l, pos 0)
unfolding find_fs link_fs unregister_fs
unregister-link [] fs h = rw (==_refl fs.address) refl
unregister-link (x ∷ rest) fs h = elim (Bool-cases (x.address == fs.address)) [
  | inl e ↦ absurd (ground arith)
  | inr e ↦ rw (e, unregister-link rest fs (ground arith)) refl
]

-- A file system that is not registered: registering it returns 0; registering it again returns -1 and
-- changes nothing; unregistering it then returns 0 and gives the list from before.
register_fs-unregister_fs :
    (l : List FileSystem) (fs : FileSystem)
    → find_fs l fs.address ≡ false
    → ((register_fs l fs).1 ≡ pos 0)
      × (register_fs (register_fs l fs).0 fs ≡ ((register_fs l fs).0, negsuc 0))
      × (unregister_fs (register_fs l fs).0 fs ≡ (l, pos 0))
unfolding register_fs
register_fs-unregister_fs l fs h = rw h (refl, rw (find_fs-link l fs) refl, unregister-link l fs h)

-- A map gets a value in one place.
abbrev pub Sets : {A : Type 0} → (ℕ → A) → (ℕ → A) → ℕ → A → Type 0
Sets f g i a = (g i ≡ a) × ((j : ℕ) → j ≢ i → g j ≡ f j)

ne→==_false : (a b : ℕ) → a ≢ b → (a == b) ≡ false
ne→==_false a b h = ground arith

if-Sets : {A : Type 0} (f : ℕ → A) (i : ℕ) (a : A) → Sets f (λ x. if x == i then a else f x) i a
if-Sets f i a = (rw (==_refl i) refl, λ j ne. rw (ne→==_false j i ne) refl)

module _ {D : Type 0} (f_probe : FileSystem → D → D × ℤ × ℕ) where
  -- The probes that are made, and the file system that accepts the device.
  pub data Probes : List FileSystem → D → D → Option (FileSystem × ℕ) → Type 0 where
    nobody : {d : D} → Probes [] d d none
    accepts :
        {fs : FileSystem} {rest : List FileSystem} {d : D}
        → (f_probe fs d).1 ≡ pos 0
        → Probes (fs ∷ rest) d (f_probe fs d).0 (some (fs, (f_probe fs d).2))
    refuses :
        {fs : FileSystem} {rest : List FileSystem} {d d' : D} {o : Option (FileSystem × ℕ)}
        → (f_probe fs d).1 ≢ pos 0
        → Probes rest (f_probe fs d).0 d' o
        → Probes (fs ∷ rest) d d' o

  -- What the caller sees of it.
  abbrev pub Reports : ℕ → FileSystems → Option (FileSystem × ℕ) → FileSystems × ℤ → Type 0
  Reports device r none (r', e) = (r' ≡ r) × (e ≢ pos 0)
  Reports device r (some (fs, data_address)) (r', e) =
      (copy : Mount) × (copy ≡ record { fs = fs; private_data = data_address; device = device })
      × (r'.mounted_filesystems ≡ copy ∷ r.mounted_filesystems)
      × Sets r.device_filesystem r'.device_filesystem device (some copy)
      × Sets r.fs_private r'.fs_private fs.address 0
      × Sets r.fs_device r'.fs_device fs.address 0
      × (r'.filesystems ≡ r.filesystems)
      × (e ≡ pos 0)

  step_accepts :
      (fs : FileSystem) (rest : List FileSystem) (error : ℤ) (d : D)
      → (f_probe fs d).1 ≡ pos 0
      → probe_loop f_probe (fs ∷ rest) error d
        ≡ ((f_probe fs d).0, pos 0, some (fs, (f_probe fs d).2))
  unfolding probe_loop
  step_accepts fs rest error d e = rw (probe_loop, e) refl

  step_pos :
      (fs : FileSystem) (rest : List FileSystem) (error : ℤ) (d : D) (n : ℕ)
      → (f_probe fs d).1 ≡ pos (suc n)
      → probe_loop f_probe (fs ∷ rest) error d
        ≡ probe_loop f_probe rest (pos (suc n)) (f_probe fs d).0
  unfolding probe_loop
  step_pos fs rest error d n e =
      let more : (suc n == 0) ≡ false = ground arith in rw (probe_loop, e, more) refl

  step_neg :
      (fs : FileSystem) (rest : List FileSystem) (error : ℤ) (d : D) (n : ℕ)
      → (f_probe fs d).1 ≡ negsuc n
      → probe_loop f_probe (fs ∷ rest) error d ≡ probe_loop f_probe rest (negsuc n) (f_probe fs d).0
  unfolding probe_loop
  step_neg fs rest error d n e = rw (probe_loop, e) refl

  -- With an error that is not 0 so far.
  probe_loop-Probes :
      (l : List FileSystem) (error : ℤ) (d : D)
      → error ≢ pos 0
      → Probes l d (probe_loop f_probe l error d).0 (probe_loop f_probe l error d).2
        × ((device : ℕ) (r : FileSystems)
            → Reports device r (probe_loop f_probe l error d).2 (
              mount_found r device (probe_loop f_probe l error d).2,
              (probe_loop f_probe l error d).1,
            ))
  unfolding probe_loop mount_found
  probe_loop-Probes [] error d ne = (nobody, λ device r. (refl, ne))
  probe_loop-Probes (fs ∷ rest) error d ne =
      go (f_probe fs d).1 refl (λ e q. probe_loop-Probes rest e (f_probe fs d).0 q)
    where
      go :
          (z : ℤ)
          → (f_probe fs d).1 ≡ z
          → ((e : ℤ)
              → e ≢ pos 0
              → Probes rest
                  (f_probe fs d).0
                  (probe_loop f_probe rest e (f_probe fs d).0).0
                  (probe_loop f_probe rest e (f_probe fs d).0).2
                × ((device : ℕ) (r : FileSystems)
                    → Reports device r (probe_loop f_probe rest e (f_probe fs d).0).2 (
                      mount_found r device (probe_loop f_probe rest e (f_probe fs d).0).2,
                      (probe_loop f_probe rest e (f_probe fs d).0).1,
                    )))
          → Probes
              (fs ∷ rest)
              d
              (probe_loop f_probe (fs ∷ rest) error d).0
              (probe_loop f_probe (fs ∷ rest) error d).2
            × ((device : ℕ) (r : FileSystems)
                → Reports device r (probe_loop f_probe (fs ∷ rest) error d).2 (
                  mount_found r device (probe_loop f_probe (fs ∷ rest) error d).2,
                  (probe_loop f_probe (fs ∷ rest) error d).1,
                ))
      go (pos zero) e ih = rw (step_accepts fs rest error d e) (
        accepts e,
        λ device r. (
          record { fs = fs; private_data = (f_probe fs d).2; device = device },
          refl,
          refl,
          if-Sets r.device_filesystem device _,
          if-Sets r.fs_private fs.address 0,
          if-Sets r.fs_device fs.address 0,
          refl,
          refl,
        ),
      )
      go (pos (suc n)) e ih =
          let h = ih (pos (suc n)) (λ q. absurd (ground (arith, q))) in
          rw (step_pos fs rest error d n e) (refuses (λ q. absurd (ground (arith, e, q))) h.0, h.1)
      go (negsuc n) e ih =
          let h = ih (negsuc n) (λ q. absurd (ground (arith, q))) in
          rw (step_neg fs rest error d n e) (refuses (λ q. absurd (ground (arith, e, q))) h.0, h.1)

  -- Probing a device asks the registered file systems in order. The first that accepts is copied: the
  -- copy belongs to the device, has what the probe left as private data, stands in front of the other
  -- mounted ones and becomes the file system of the device, that of other devices stays, the private
  -- data and the device of the registered one are reset, those of the others stay, and the result is
  -- 0. If all refuse, nothing is mounted, no field changes and the result is not 0.
  pub disk_probe_fs-Probes :
      (r : FileSystems) (device : ℕ) (d : D)
      → (o : Option (FileSystem × ℕ)) × Probes r.filesystems d
          (disk_probe_fs f_probe r device d).1
          o
        × Reports device r o
            ((disk_probe_fs f_probe r device d).0, (disk_probe_fs f_probe r device d).2)
  unfolding disk_probe_fs
  disk_probe_fs-Probes r device d =
      let h = probe_loop-Probes r.filesystems (negsuc 0) d (λ q. absurd (ground (arith, q))) in
      ((probe_loop f_probe r.filesystems (negsuc 0) d).2, h.0, h.1 device r)
