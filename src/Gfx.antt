-- ===== src/Gfx.antt =====
-- Drawing of rectangles in common/gfx.c, with the pixels behind the cursor that common/ui/cursor.c
-- keeps.
pub mod Row
pub mod Rect
mod Examples
use light_loader.Common.{
  ℕ, zero, suc, ◌+◌, ◌-◌, ◌*◌, ◌/◌, ◌%◌, ltb, leb, ◌==◌, if◌then◌else◌, Bool, true, false, not,
  ◌&&◌, ◌||◌, Option, none, some, w32, add64, add32, sub32,
}
use light_loader.Common.Bytes.{Mem, write}

-- `light_gfx_t`, as far as drawing uses it, with `has_fw` of the context.
pub record Gfx : Type 0 where
  pub phys_addr : ℕ
  pub width : ℕ
  pub height : ℕ
  pub stride : ℕ
  pub bpp : ℕ
  pub back_fb : ℕ
  pub has_fw : Bool
  pub drawing_cursor : Bool

-- The frame buffer's words of 32 bits by their addresses, and the cursor's copy of the pixels behind
-- it, with the place of the cursor.
pub record Screen : Type 0 where
  pub frame : Mem
  pub cursor_backbuffer : Option Mem
  pub old_x : ℕ
  pub old_y : ℕ

unfoldable pub update_cursor_pixel : Screen → ℕ → ℕ → ℕ → Screen
update_cursor_pixel s x y clr = elim s.cursor_backbuffer [
  | none ↦ s
  | some b ↦
      let at = add32 (sub32 y s.old_y * 16 % w32) (sub32 x s.old_x) in
      let kept : Screen = record s { cursor_backbuffer = some (write b at clr) } in
      if leb s.old_x x && ltb x (add32 s.old_x 16) && leb s.old_y y && ltb y (add32 s.old_y 16)
      then kept
      else s
]

unfoldable pub gfx_get_draw_addr : Gfx → ℕ → ℕ → Bool → ℕ
gfx_get_draw_addr gfx x y back =
    add64 (add64 (if back then gfx.back_fb else gfx.phys_addr) (x * gfx.bpp % w32 / 8))
      (y * gfx.stride % w32 * 4)

-- One pixel: the word at the address, and the copy behind the cursor unless that is being drawn.
unfoldable pub draw_pixel : Gfx → Screen → ℕ → ℕ → ℕ → ℕ → Screen
draw_pixel gfx s draw_addr x y clr =
    let drawn : Screen = record s { frame = write s.frame draw_addr clr } in
    if gfx.drawing_cursor then drawn else update_cursor_pixel drawn x y clr

-- The inner loop of `gfx_draw_rect_raw`, with `n` columns left.
unfoldable pub draw_row : ℕ → Gfx → Screen → ℕ → ℕ → ℕ → ℕ → Screen
draw_row zero gfx s draw_addr x y clr = s
draw_row (suc n) gfx s draw_addr x y clr =
    let next = if leb gfx.width x then s else draw_pixel gfx s draw_addr x y clr in
    draw_row n gfx next (add64 draw_addr 4) (add32 x 1) y clr

-- The outer loop, with `n` rows left.
unfoldable pub draw_rows : ℕ → Gfx → Screen → ℕ → ℕ → ℕ → ℕ → Screen
draw_rows zero gfx s x y width clr = s
draw_rows (suc n) gfx s x y width clr =
    let back = not (gfx.back_fb == 0) && gfx.has_fw in
    let row = draw_row width gfx s (gfx_get_draw_addr gfx x y back) x y clr in
    let rest = draw_rows n gfx row x (add32 y 1) width clr in if leb gfx.height y then row else rest

unfoldable pub gfx_draw_rect_raw : Gfx → Screen → ℕ → ℕ → ℕ → ℕ → ℕ → Screen
gfx_draw_rect_raw gfx s x y width height clr = draw_rows height gfx s x y width clr

unfoldable pub gfx_get_pixel : Gfx → Screen → ℕ → ℕ → ℕ
gfx_get_pixel gfx s x y =
    if leb gfx.width x || leb gfx.height y || gfx.back_fb == 0
    then 0
    else s.frame (gfx_get_draw_addr gfx x y true)
