-- ===== src/Tar/Read.antt =====
-- Reads of a file stay within it.
use light_loader.Common.{
  ℕ, ◌+◌, ◌-◌, ◌≤◌, ◌<◌, ◌≡◌, refl, ◌⊎◌, inl, inr, arith, min, w64, add64, sub64, lt→leb_false,
  lt→ltb, ge→ltb, gt→==_false, le-or-lt, ℤ, pos,
}
use light_loader.Common.Bytes.{Mem}
use light_loader.Memory.{memcpy}
use light_loader.Memory.Copy.{memcpy_lem}
use light_loader.Tar.{File, tar_file_read}

-- `n` bytes of the file from `offset` on stand in the buffer, and the rest of memory is as it was.
pub record Delivers (m : Mem) (file : File) (buffer offset n : ℕ) (r : Mem × ℕ × ℤ) : Type 0 where
  pub count : r.1 ≡ n
  pub result : r.2 ≡ pos 0
  pub bytes : (k : ℕ) → k < n → r.0 (buffer + k) ≡ m (file.buffer + offset + k)
  pub kept : (x : ℕ) → (x < buffer) ⊎ (buffer + n ≤ x) → r.0 x ≡ m x

memcpy-Delivers :
    (m : Mem) (file : File) (buffer offset n : ℕ)
    → offset + n ≤ file.filesize
    → file.buffer + file.filesize < w64
    → buffer + n < w64
    → (buffer + n ≤ file.buffer) ⊎ (file.buffer + file.filesize ≤ buffer)
    → Delivers m file buffer offset n (memcpy m buffer (add64 file.buffer offset) n, n, pos 0)
memcpy-Delivers m file buffer offset n le top top' apart =
    let at : add64 file.buffer offset ≡ file.buffer + offset = omega arith in
    let c = memcpy_lem m buffer (file.buffer + offset) n top' (omega arith) (grind arith) in
    rw at (record { count = refl; result = refl; bytes = c.0; kept = c.1 })

-- For a buffer that is not null and does not overlap the file, a size that is not 0, an offset within
-- the file, and sums that do not wrap, a read returns 0 and as many of the file's bytes from the
-- offset as the size asks for and the file has, and changes no other byte.
pub tar_file_read-Delivers :
    (m : Mem) (file : File) (buffer size offset : ℕ)
    → 0 < buffer
    → 0 < size
    → offset < file.filesize
    → offset + size < w64
    → file.buffer + file.filesize < w64
    → buffer + size < w64
    → (buffer + size ≤ file.buffer) ⊎ (file.buffer + file.filesize ≤ buffer)
    → Delivers m file buffer offset
        (min size (file.filesize - offset))
        (tar_file_read m file buffer size offset)
unfolding tar_file_read
tar_file_read-Delivers m file buffer size offset pos_b pos_s inside sum top top' apart =
    let total : add64 offset size ≡ offset + size = omega arith in
    let n = min size (file.filesize - offset) in
    let copied =
      memcpy-Delivers m file buffer offset n (omega arith) top (omega arith) (grind arith) in
    rw
      (
        gt→==_false buffer 0 pos_b,
        gt→==_false size 0 pos_s,
        lt→leb_false file.filesize offset inside,
        total,
      )
      (elim (le-or-lt (offset + size) file.filesize) [
        | inl fits ↦
            let e : min size (file.filesize - offset) ≡ size = omega arith in
            rw (ge→ltb file.filesize (offset + size) fits, e)
              (memcpy-Delivers m file buffer offset size fits top top' apart)
        | inr long ↦
            let e : sub64 size (sub64 (offset + size) file.filesize) ≡ n = omega arith in
            rw (lt→ltb file.filesize (offset + size) long, e) copied
      ])
