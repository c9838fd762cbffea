-- ===== src/Fat/Names.antt =====
-- File names as the eleven bytes of a directory entry: `transform_fat_filename`.
pub mod Rounds
pub mod Transform
pub mod Endless
mod Examples
use light_loader.Common.{
  ℕ, zero, suc, ◌+◌, ◌-◌, ◌==◌, ltb, leb, if◌then◌else◌, Bool, true, false, not, ◌&&◌, ◌||◌, Option,
  none, some, pos, negsuc,
}
use light_loader.Common.Bytes.{Mem, write}
use light_loader.Memory.{strncmp}

-- TO_UPPERCASE
unfoldable pub to_uppercase : ℕ → ℕ
to_uppercase c = if leb b'a' c && leb c b'z' then c - 0x20 else c

-- The loop, on fuel; `none` is out of fuel. `src` ends with a NUL. A '.' sets `src_dot_idx` behind it
-- and starts the index again. The source's `dest` has 11 bytes; an extension of more than three
-- characters is written past them, here as there.
unfoldable pub transform_loop : ℕ → Mem → ℕ → ℕ → Bool → Mem → Option (Mem × Bool)
transform_loop zero src i src_dot_idx found_ext dest = none
transform_loop (suc fuel) src i src_dot_idx found_ext dest =
    let again =
      transform_loop fuel src 1 (i + 1) true (write dest 8 (to_uppercase (src (i + 1)))) in
    let in_ext =
      transform_loop fuel src (i + 1) src_dot_idx true
        (write dest (8 + i) (to_uppercase (src (src_dot_idx + i)))) in
    let in_base =
      transform_loop fuel src (i + 1) src_dot_idx false (write dest i (to_uppercase (src i))) in
    if src (src_dot_idx + i) == 0
    then some (dest, found_ext)
    else if leb 11 i || (leb 8 i && not found_ext)
    then some (dest, found_ext)
    else if src i == b'.'
    then again
    else if found_ext
    then in_ext
    else in_base

unfoldable pub transform_fat_filename : ℕ → Mem → Option (Mem × Bool)
transform_fat_filename fuel src = transform_loop fuel src 0 0 false (λ _. 0x20)

-- `strncmp(a, b, n) == 0` for `n` bytes of two buffers, which stand one behind the other.
unfoldable pub same_text : ℕ → Mem → Mem → Bool
same_text n a b =
    elim (strncmp (λ x. if ltb x n then a x else if ltb x (n + n) then b (x - n) else 0) 0 n n) [
      | pos e ↦ e == 0
      | negsuc e ↦ false
    ]
