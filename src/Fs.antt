-- ===== src/Fs.antt =====
-- The registry of file systems and the mounted ones, common/fs.c. The linked lists of `light_fs_t` are
-- lists of what a caller gave; the device operations of a file system are parameters.
pub mod Registry
mod Examples
use light_loader.Common.{
  ℕ, ◌==◌, if◌then◌else◌, Bool, true, false, not, Option, none, some, List, [], ◌∷◌, ℤ, pos, negsuc,
}

-- `light_fs_t`, told apart by its address; `installs` says that `f_install` is set.
pub record FileSystem : Type 0 where
  pub address : ℕ
  pub fs_type : ℕ
  pub installs : Bool

-- Whether `__find_fs` stops at an entry.
unfoldable pub find_fs : List FileSystem → ℕ → Bool
find_fs [] address = false
find_fs (fs ∷ rest) address = if fs.address == address then true else find_fs rest address

-- `__find_fs_type` and `get_fs`; `none` is the null pointer.
unfoldable pub get_fs : List FileSystem → ℕ → Option FileSystem
get_fs [] type = none
get_fs (fs ∷ rest) type = if fs.fs_type == type then some fs else get_fs rest type

unfoldable pub link_fs : List FileSystem → FileSystem → List FileSystem
link_fs [] fs = fs ∷ []
link_fs (x ∷ rest) fs = x ∷ link_fs rest fs

unfoldable pub register_fs : List FileSystem → FileSystem → List FileSystem × ℤ
register_fs filesystems fs =
    if find_fs filesystems fs.address
    then (filesystems, negsuc 0)
    else (link_fs filesystems fs, pos 0)

unfoldable pub unregister_fs : List FileSystem → FileSystem → List FileSystem × ℤ
unregister_fs [] fs = ([], negsuc 0)
unregister_fs (x ∷ rest) fs =
    let r = unregister_fs rest fs in
    if x.address == fs.address then (rest, pos 0) else (x ∷ r.0, r.1)

-- A mounted file system: the copy, what its `private` points to, and its device.
pub record Mount : Type 0 where
  pub fs : FileSystem
  pub private_data : ℕ
  pub device : ℕ

-- The two lists; by the address of a registered file system, its fields `private` and `device`; and by
-- a device, its field `filesystem`. 0 and `none` are the null pointer.
pub record FileSystems : Type 0 where
  pub filesystems : List FileSystem
  pub mounted_filesystems : List Mount
  pub fs_private : ℕ → ℕ
  pub fs_device : ℕ → ℕ
  pub device_filesystem : ℕ → Option Mount

-- What is done with the file system that accepted the device. The copy is taken to be allocated: the
-- source writes to it without a test.
unfoldable pub mount_found : FileSystems → ℕ → Option (FileSystem × ℕ) → FileSystems
mount_found r device none = r
mount_found r device (some (fs, data_address)) =
    let copy : Mount = record { fs = fs; private_data = data_address; device = device } in
    record r {
      mounted_filesystems = copy ∷ r.mounted_filesystems;
      device_filesystem = λ x. if x == device then some copy else r.device_filesystem x;
      fs_private = λ x. if x == fs.address then 0 else r.fs_private x;
      fs_device = λ x. if x == fs.address then 0 else r.fs_device x;
    }

unfoldable pub is_zero : ℤ → Bool
is_zero (pos e) = e == 0
is_zero (negsuc e) = false

module _ {D : Type 0} (f_probe : FileSystem → D → D × ℤ × ℕ) where
  -- The probes in the order of registration, up to the first that accepts.
  unfoldable pub probe_loop : List FileSystem → ℤ → D → D × ℤ × Option (FileSystem × ℕ)
  probe_loop [] error d = (d, error, none)
  probe_loop (fs ∷ rest) error d = elim (f_probe fs d).1 [
    | pos e ↦ elim (e == 0) [
      | true ↦ ((f_probe fs d).0, pos 0, some (fs, (f_probe fs d).2))
      | false ↦ probe_loop rest (pos e) (f_probe fs d).0
    ]
    | negsuc e ↦ probe_loop rest (negsuc e) (f_probe fs d).0
  ]

  -- The device is `device`, in the state `d`.
  unfoldable pub disk_probe_fs : FileSystems → ℕ → D → FileSystems × D × ℤ
  disk_probe_fs r device d =
      let found = probe_loop r.filesystems (negsuc 0) d in
      (mount_found r device found.2, found.0, found.1)

  unfoldable pub disk_install_fs :
      (FileSystem → D → D × ℤ) → FileSystems → ℕ → ℕ → D → FileSystems × D × ℤ
  disk_install_fs f_install r device type d = elim (get_fs r.filesystems type) [
    | none ↦ (r, d, negsuc 0)
    | some fs ↦
        if not fs.installs
        then (r, d, negsuc 0)
        else if not (is_zero (f_install fs d).1)
        then (r, (f_install fs d).0, negsuc 1)
        else disk_probe_fs r device (f_install fs d).0
  ]
