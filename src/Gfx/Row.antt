-- ===== src/Gfx/Row.antt =====
-- What one row of gfx_draw_rect_raw paints.
use light_loader.Common.{
  ℕ, zero, suc, ◌+◌, ◌-◌, ◌*◌, ◌≤◌, ◌<◌, ◌≡◌, refl, ◌∙◌, ap, ◌⊎◌, inl, inr, leb, if◌then◌else◌,
  Bool, true, false, w32, w64, add32, Option-cases, le-or-lt, le→leb, lt→leb_false, arith,
}
use light_loader.Common.Bytes.{Mem, write}
use light_loader.Gfx.{Gfx, Screen, update_cursor_pixel, draw_pixel, draw_row}

if_frame :
    (b : Bool) (u v : Screen) (f : Mem) → u.frame ≡ f → v.frame ≡ f → (if b then u else v).frame ≡ f
if_frame true u v f p q = p
if_frame false u v f p q = q

update_frame : (s : Screen) (x y clr : ℕ) → (update_cursor_pixel s x y clr).frame ≡ s.frame
unfolding update_cursor_pixel
update_frame s x y clr = elim (Option-cases s.cursor_backbuffer) [
  | inl e ↦ rw (update_cursor_pixel, e) refl
  | inr (b, e) ↦ rw (update_cursor_pixel, e) (if_frame _ _ s s.frame refl refl)
]

draw_pixel_frame :
    (gfx : Gfx) (s : Screen) (a x y clr : ℕ)
    → (draw_pixel gfx s a x y clr).frame ≡ write s.frame a clr
unfolding draw_pixel
draw_pixel_frame gfx s a x y clr =
    if_frame gfx.drawing_cursor _ _ (write s.frame a clr) refl
      (update_frame (record s { frame = write s.frame a clr }) x y clr)

module _ (gfx : Gfx) (s : Screen) (a x y clr : ℕ) where
  -- The screen behind one column.
  abbrev next_screen : Screen
  next_screen = if leb gfx.width x then s else draw_pixel gfx s a x y clr

  next_outside : (p : ℕ) → (gfx.width ≤ x) ⊎ ((p < a) ⊎ (a < p)) → next_screen.frame p ≡ s.frame p
  unfolding write
  next_outside p h = elim (le-or-lt gfx.width x) [
    | inl l ↦ rw (le→leb gfx.width x l) refl
    | inr l ↦
        rw (lt→leb_false gfx.width x l)
          (ap (λ f. f p) (draw_pixel_frame gfx s a x y clr) ∙ ground arith)
  ]

  next_inside : x < gfx.width → next_screen.frame a ≡ clr
  unfolding write
  next_inside l =
      rw (lt→leb_false gfx.width x l)
        (ap (λ f. f a) (draw_pixel_frame gfx s a x y clr) ∙ ground arith)

module _ (gfx : Gfx) (y clr : ℕ) where
  draw_row_step :
      (n : ℕ) (s : Screen) (a x : ℕ)
      → a + 4 < w64
      → x + 1 < w32
      → draw_row (suc n) gfx s a x y clr
        ≡ draw_row n gfx (next_screen gfx s a x y clr) (a + 4) (x + 1) y clr
  unfolding draw_row
  draw_row_step n s a x w v =
      ap (λ k. draw_row n gfx (next_screen gfx s a x y clr) k (add32 x 1) y clr) (omega arith)
      ∙ ap (λ k. draw_row n gfx (next_screen gfx s a x y clr) (a + 4) k y clr) (omega arith)

  draw_row_none : (s : Screen) (a x : ℕ) → draw_row zero gfx s a x y clr ≡ s
  unfolding draw_row
  draw_row_none s a x = refl

  -- A row leaves what lies before it, behind it, and behind the right edge of the screen.
  pub draw_row_outside :
      (n : ℕ) (s : Screen) (a x p : ℕ)
      → a + 4 * n < w64
      → x + n < w32
      → (p < a) ⊎ ((a + 4 * n ≤ p) ⊎ (a + 4 * (gfx.width - x) ≤ p))
      → (draw_row n gfx s a x y clr).frame p ≡ s.frame p
  draw_row_outside zero s a x p w v h = ap (λ q. q.frame p) (draw_row_none s a x)
  draw_row_outside (suc n) s a x p w v h = rw (draw_row_step n s a x (omega arith) (omega arith)) (
      draw_row_outside n (next_screen gfx s a x y clr) (a + 4) (x + 1) p (omega arith) (omega arith)
        (grind arith)
      ∙ next_outside gfx s a x y clr p (grind arith))

  -- It paints every pixel in front of the right edge.
  pub draw_row_inside :
      (n : ℕ) (s : Screen) (a x k : ℕ)
      → a + 4 * n < w64
      → x + n < w32
      → k < n
      → x + k < gfx.width
      → (draw_row n gfx s a x y clr).frame (a + 4 * k) ≡ clr
  draw_row_inside zero s a x k w v l g = absurd (omega arith)
  draw_row_inside (suc n) s a x zero w v l g =
      rw (draw_row_step n s a x (omega arith) (omega arith)) (
        draw_row_outside n (next_screen gfx s a x y clr) (a + 4) (x + 1) (a + 4 * 0) (omega arith)
          (omega arith) (inl (omega arith))
        ∙ ap (next_screen gfx s a x y clr).frame (omega arith)
        ∙ next_inside gfx s a x y clr (omega arith))
  draw_row_inside (suc n) s a x (suc k) w v l g =
      rw (draw_row_step n s a x (omega arith) (omega arith)) (
        ap (draw_row n gfx (next_screen gfx s a x y clr) (a + 4) (x + 1) y clr).frame (omega arith)
        ∙ draw_row_inside n (next_screen gfx s a x y clr) (a + 4) (x + 1) k (omega arith)
            (omega arith) (omega arith) (omega arith))
