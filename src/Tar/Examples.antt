-- ===== src/Tar/Examples.antt =====
-- An archive of one empty file "a" at 4096, with its name given at 16.
use light_loader.Common.{ℕ, ◌+◌, ◌-◌, ◌==◌, if◌then◌else◌, arith, min, inl}
use light_loader.Common.Bytes.{Mem}
use light_loader.Tar.{File, tar_file_read, tarfs_find}
use light_loader.Tar.Read.{Delivers, tar_file_read-Delivers}
use light_loader.Tar.Find.{Octal, Finds, tarfs_find-Finds}

abbrev archive : Mem
archive = λ a. if a == 16 then b'a' else if a == 4096 then b'a' else b'0'

abbrev file : File
file = record { filesize = 100; buffer = 4608 }

tar_file_read-Delivers_example :
    Delivers archive file 64 90 (min 20 (file.filesize - 90)) (tar_file_read archive file 64 20 90)
tar_file_read-Delivers_example =
    tar_file_read-Delivers archive file 64 20 90 (omega arith) (omega arith) (omega arith)
      (omega arith) (omega arith) (omega arith) (inl (omega arith))

digits : (to : ℕ) → Octal 11 archive (4096 + to + 124)
digits to k lt = ground arith

tarfs_find-Finds_example : Finds archive 4096 512 16 1 0 (tarfs_find 3 archive 4096 512 16 1)
tarfs_find-Finds_example =
    tarfs_find-Finds 3 archive 4096 512 16 1 (omega arith) (omega arith) (λ to p lt. digits to)
      (omega arith) (omega arith)
