-- ===== src/Tar.antt =====
-- The tar file system, common/fs/tarfs/tar.c, over an archive in memory.
pub mod Read
pub mod Find
mod Examples
use light_loader.Common.{
  ℕ, zero, suc, ◌+◌, ◌*◌, ◌/◌, ◌%◌, ◌==◌, ltb, leb, if◌then◌else◌, Bool, not, ◌||◌, Option, none,
  some, w64, add64, sub64, ℤ, pos, negsuc,
}
use light_loader.Common.Bytes.{Mem}
use light_loader.Memory.{memcpy, memcmp}

-- `ret` is a uintptr_t, and a byte below '0' wraps it.
unfoldable pub decode_loop : ℕ → Mem → ℕ → ℕ → ℕ
decode_loop zero m c ret = ret
decode_loop (suc n) m c ret = decode_loop n m (c + 1) (sub64 (add64 (ret * 8 % w64) (m c)) b'0')

unfoldable pub decode_tar_ascii : Mem → ℕ → ℕ → ℕ
decode_tar_ascii m str length = decode_loop length m str 0

abbrev pub tar_ustar_alignment : ℕ
tar_ustar_alignment = 512

unfoldable pub apply_tar_alignment : ℕ → ℕ
apply_tar_alignment val =
    (sub64 (add64 val tar_ustar_alignment) 1 / tar_ustar_alignment + 1) * tar_ustar_alignment % w64

-- An open file: its size, and the address of its contents.
pub record File : Type 0 where
  pub filesize : ℕ
  pub buffer : ℕ

-- The memory, the new `*size` and the result.
unfoldable pub tar_file_read : Mem → File → ℕ → ℕ → ℕ → Mem × ℕ × ℤ
tar_file_read m file buffer size offset =
    let target_size =
      if ltb file.filesize (add64 offset size)
      then sub64 size (sub64 (add64 offset size) file.filesize)
      else size in
    if buffer == 0
    then (m, size, negsuc 0)
    else if size == 0
    then (m, size, negsuc 1)
    else if leb file.filesize offset
    then (m, 0, negsuc 2)
    else (memcpy m buffer (add64 file.buffer offset) target_size, target_size, pos 0)

-- The fields of `tar_file_t` at a header: the name comes first.
unfoldable pub entry_size : Mem → ℕ → ℕ
entry_size m header = decode_tar_ascii m (header + 124) 11

unfoldable pub entry_type : Mem → ℕ → ℕ
entry_type m header = m (header + 156)

unfoldable pub entry_named : Mem → ℕ → ℕ → ℕ → Bool
entry_named m header name name_len = memcmp m header name name_len

-- The loop of `tarfs_find`, on fuel: the outer `none` is out of fuel, and the inner one the null
-- pointer. The allocations of the file's records are taken to succeed.
unfoldable pub find_loop : ℕ → Mem → ℕ → ℕ → ℕ → ℕ → ℕ → Option (Option File)
find_loop zero m start size name name_len current_offset = none
find_loop (suc fuel) m start size name name_len current_offset =
    let header = start + current_offset in
    let filesize = entry_size m header in
    let rest =
      find_loop fuel m start size name name_len
        (add64 current_offset (apply_tar_alignment filesize)) in
    if not (ltb current_offset size)
    then some none
    else if not (entry_named m header name name_len)
    then rest
    else if entry_type m header == b'0'
    then some (some (record { filesize = filesize; buffer = header + tar_ustar_alignment }))
    else some none

unfoldable pub tarfs_find : ℕ → Mem → ℕ → ℕ → ℕ → ℕ → Option (Option File)
tarfs_find fuel m start size name name_len =
    if name == 0 || name_len == 0 then some none else find_loop fuel m start size name name_len 0
