-- ===== src/Gfx/Examples.antt =====
-- A screen of 4 by 3 pixels, with a rectangle that reaches past its lower edge.
use light_loader.Common.{◌≡◌, refl, true, false, none, if◌then◌else◌, arith}
use light_loader.Gfx.{Gfx, Screen, gfx_draw_rect_raw}
use light_loader.Gfx.Rect.{pixel, painted, gfx_draw_rect_raw-painted}

abbrev small : Gfx
small = record {
  phys_addr = 0x1000;
  width = 4;
  height = 3;
  stride = 4;
  bpp = 32;
  back_fb = 0;
  has_fw = true;
  drawing_cursor = false;
}

abbrev blank : Screen
blank = record { frame = λ a. 0; cursor_backbuffer = none; old_x = 0; old_y = 0 }

-- The pixel lies in the row behind the last one, and is painted.
gfx_draw_rect_raw-painted_example :
    (gfx_draw_rect_raw small blank 2 1 5 5 7).frame (pixel small 3 3)
    ≡ (if painted small 2 1 5 5 3 3 then 7 else blank.frame (pixel small 3 3))
gfx_draw_rect_raw-painted_example =
    gfx_draw_rect_raw-painted small blank 2 1 5 5 7 3 3
      (refl, omega arith, omega arith, omega arith, omega arith, omega arith, omega arith)
      (omega arith)
