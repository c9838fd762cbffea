-- ===== src/Fs/Examples.antt =====
-- A registry with one file system, and another one.
use light_loader.Common.{
  ℕ, ℤ, ◌==◌, if◌then◌else◌, Option, none, refl, true, false, [], ◌∷◌, ◌≡◌, pos, negsuc,
}
use light_loader.Fs.{FileSystems, disk_probe_fs, FileSystem, find_fs}
use light_loader.Fs.Registry.{Probes, Reports, disk_probe_fs-Probes}

abbrev fat32_fs : FileSystem
fat32_fs = record { address = 4096; fs_type = 1; installs = true }

abbrev tar_fs : FileSystem
tar_fs = record { address = 8192; fs_type = 2; installs = false }

not_registered : find_fs (fat32_fs ∷ []) 8192 ≡ false
unfolding find_fs
not_registered = refl

-- The second file system accepts every device and leaves it alone.
abbrev probe_second : FileSystem → ℕ → ℕ × ℤ × ℕ
probe_second fs d = (d, (if fs.address == 8192 then pos 0 else negsuc 0), 77)

abbrev registry : FileSystems
registry = record {
  filesystems = fat32_fs ∷ tar_fs ∷ [];
  mounted_filesystems = [];
  fs_private = λ _. 0;
  fs_device = λ _. 0;
  device_filesystem = λ _. none;
}

disk_probe_fs-Probes_example :
    (o : Option (FileSystem × ℕ)) × Probes probe_second registry.filesystems 5
      (disk_probe_fs probe_second registry 3 5).1
      o
    × Reports probe_second 3 registry o
        ((disk_probe_fs probe_second registry 3 5).0, (disk_probe_fs probe_second registry 3 5).2)
disk_probe_fs-Probes_example = disk_probe_fs-Probes probe_second registry 3 5
