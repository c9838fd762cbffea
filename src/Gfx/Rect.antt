-- ===== src/Gfx/Rect.antt =====
-- What gfx_draw_rect_raw paints.
use light_loader.Common.{
  ℕ, zero, suc, ◌+◌, ◌-◌, ◌*◌, ◌^◌, ◌≤◌, ◌<◌, ◌≡◌, refl, sym, ◌∙◌, ap, ◌⊎◌, inl, inr, ltb, leb,
  ◌==◌, if◌then◌else◌, Bool, true, false, not, ◌&&◌, ◌||◌, w32, add32, Bool-cases, le-or-lt, le→leb,
  lt→leb_false, arith,
}
use mathlib.Core.Path.{subst}
use native.Mathlib.Nat.{mul-le-mul_right, add-mul}
use light_loader.Gfx.Row.{draw_row_outside, draw_row_inside}
use light_loader.Gfx.{Gfx, Screen, gfx_get_draw_addr, draw_row, draw_rows, gfx_draw_rect_raw}

-- Where the frame buffer begins.
abbrev pub frame_base : Gfx → ℕ
frame_base gfx = if not (gfx.back_fb == 0) && gfx.has_fw then gfx.back_fb else gfx.phys_addr

-- The address of a pixel.
abbrev pub pixel : Gfx → ℕ → ℕ → ℕ
pixel gfx px py = frame_base gfx + 4 * (px + py * gfx.stride)

-- A rectangle whose left side is on the screen, in a buffer of 32 bits for a pixel, without a wrap.
abbrev pub Drawable : Gfx → ℕ → ℕ → ℕ → ℕ → Type 0
Drawable gfx x y width height =
    (gfx.bpp ≡ 32)
    × (gfx.width ≤ gfx.stride)
    × (x ≤ gfx.width)
    × (gfx.width + width < 2 ^ 26)
    × (y + height < w32)
    × ((y + height) * gfx.stride < 2 ^ 30)
    × (frame_base gfx < 2 ^ 62)

address_lem :
    (gfx : Gfx) (x y : ℕ)
    → gfx.bpp ≡ 32
    → x < 2 ^ 27
    → y * gfx.stride < 2 ^ 30
    → frame_base gfx < 2 ^ 62
    → gfx_get_draw_addr gfx x y (not (gfx.back_fb == 0) && gfx.has_fw) ≡ pixel gfx x y
unfolding gfx_get_draw_addr
address_lem gfx x y b l r f = let e : x * gfx.bpp ≡ x * 32 = ap (λ k. x * k) b in omega (arith, e)

-- Pixels of different rows lie apart.
rows_apart :
    (gfx : Gfx) (px py qx qy : ℕ) → px < gfx.stride → py < qy → (pixel gfx px py < pixel gfx qx qy)
rows_apart gfx px py qx qy l h =
    let next : (py + 1) * gfx.stride ≤ qy * gfx.stride =
      mul-le-mul_right gfx.stride (omega arith) in
    omega (arith, next, add-mul py 1 gfx.stride)

module _ (gfx : Gfx) (x width clr : ℕ) where
  -- A row behind its address.
  abbrev row : Screen → ℕ → Screen
  row s y = draw_row width gfx s (pixel gfx x y) x y clr

  draw_rows_step :
      (n : ℕ) (s : Screen) (y : ℕ)
      → Drawable gfx x y width (suc n)
      → draw_rows (suc n) gfx s x y width clr
        ≡ (if leb gfx.height y then row s y else draw_rows n gfx (row s y) x (y + 1) width clr)
  unfolding draw_rows
  draw_rows_step n s y (b, ws, xl, wl, yl, rl, fl) =
      let low : y * gfx.stride ≤ (y + suc n) * gfx.stride =
        mul-le-mul_right gfx.stride (omega arith) in
      let at = address_lem gfx x y b (omega arith) (omega arith) fl in
      let py : add32 y 1 ≡ y + 1 = omega arith in rw (at, py) refl

  Drawable-next : (n y : ℕ) → Drawable gfx x y width (suc n) → Drawable gfx x (y + 1) width n
  Drawable-next n y (b, ws, xl, wl, yl, rl, fl) =
      (b, ws, xl, wl, omega arith, subst (λ k. k * gfx.stride < 2 ^ 30) (omega arith) rl, fl)

  row_outside :
      (n : ℕ) (s : Screen) (y px py : ℕ)
      → Drawable gfx x y width (suc n)
      → px < gfx.stride
      → (py < y) ⊎ ((y < py) ⊎ ((px < x) ⊎ ((x + width ≤ px) ⊎ (gfx.width ≤ px))))
      → (row s y).frame (pixel gfx px py) ≡ s.frame (pixel gfx px py)
  row_outside n s y px py (b, ws, xl, wl, yl, rl, fl) pl h =
      let low : y * gfx.stride ≤ (y + suc n) * gfx.stride =
        mul-le-mul_right gfx.stride (omega arith) in
      draw_row_outside gfx y clr width s (pixel gfx x y) x (pixel gfx px py) (omega arith)
        (omega arith)
        (elim (le-or-lt y py) [
          | inr l ↦ inl (rows_apart gfx px py x y pl l)
          | inl l ↦ elim (le-or-lt (y + 1) py) [
            | inl m ↦
                let below : (y + 1) * gfx.stride ≤ py * gfx.stride =
                  mul-le-mul_right gfx.stride m in
                inr (inr (omega (arith, below, add-mul y 1 gfx.stride)))
            | inr m ↦
                let same : py * gfx.stride ≡ y * gfx.stride =
                  ap (λ k. k * gfx.stride) (omega arith) in
                same_row same (omega arith) h
          ]
        ])
    where
      same_row :
          py * gfx.stride ≡ y * gfx.stride
          → py ≡ y
          → (py < y) ⊎ ((y < py) ⊎ ((px < x) ⊎ ((x + width ≤ px) ⊎ (gfx.width ≤ px))))
          → (pixel gfx px py < pixel gfx x y)
            ⊎ ((pixel gfx x y + 4 * width ≤ pixel gfx px py)
                ⊎ (pixel gfx x y + 4 * (gfx.width - x) ≤ pixel gfx px py))
      same_row e q (inl l) = absurd (omega arith)
      same_row e q (inr (inl l)) = absurd (omega arith)
      same_row e q (inr (inr (inl l))) = inl (omega (arith, e))
      same_row e q (inr (inr (inr (inl l)))) = inr (inl (omega (arith, e)))
      same_row e q (inr (inr (inr (inr l)))) = inr (inr (omega (arith, e)))

  row_inside :
      (n : ℕ) (s : Screen) (y px : ℕ)
      → Drawable gfx x y width (suc n)
      → x ≤ px
      → px < x + width
      → px < gfx.width
      → (row s y).frame (pixel gfx px y) ≡ clr
  row_inside n s y px (b, ws, xl, wl, yl, rl, fl) h k l =
      let low : y * gfx.stride ≤ (y + suc n) * gfx.stride =
        mul-le-mul_right gfx.stride (omega arith) in
      ap (row s y).frame (omega arith)
      ∙ draw_row_inside gfx y clr width s (pixel gfx x y) x (px - x) (omega arith) (omega arith)
          (omega arith) (omega arith)

  draw_rows_none : (s : Screen) (y : ℕ) → draw_rows zero gfx s x y width clr ≡ s
  unfolding draw_rows
  draw_rows_none s y = refl

  draw_rows_last :
      (n : ℕ) (s : Screen) (y : ℕ)
      → Drawable gfx x y width (suc n)
      → gfx.height ≤ y
      → draw_rows (suc n) gfx s x y width clr ≡ row s y
  draw_rows_last n s y d l =
      draw_rows_step n s y d
      ∙ ap (λ b. if b then row s y else draw_rows n gfx (row s y) x (y + 1) width clr)
          (le→leb gfx.height y l)

  draw_rows_more :
      (n : ℕ) (s : Screen) (y : ℕ)
      → Drawable gfx x y width (suc n)
      → y < gfx.height
      → draw_rows (suc n) gfx s x y width clr ≡ draw_rows n gfx (row s y) x (y + 1) width clr
  draw_rows_more n s y d l =
      draw_rows_step n s y d
      ∙ ap (λ b. if b then row s y else draw_rows n gfx (row s y) x (y + 1) width clr)
          (lt→leb_false gfx.height y l)

  draw_rows_outside :
      (n : ℕ) (s : Screen) (y px py : ℕ)
      → Drawable gfx x y width n
      → px < gfx.stride
      → (px < x)
        ⊎ ((x + width ≤ px)
            ⊎ ((gfx.width ≤ px) ⊎ ((py < y) ⊎ ((y + n ≤ py) ⊎ ((y < py) × (gfx.height < py))))))
      → (draw_rows n gfx s x y width clr).frame (pixel gfx px py) ≡ s.frame (pixel gfx px py)
  draw_rows_outside zero s y px py d l h = ap (λ q. q.frame (pixel gfx px py)) (draw_rows_none s y)
  draw_rows_outside (suc n) s y px py d l h = elim (le-or-lt gfx.height y) [
    | inl stop ↦
        ap (λ q. q.frame (pixel gfx px py)) (draw_rows_last n s y d stop)
        ∙ row_outside n s y px py d l (grind arith)
    | inr go ↦
        ap (λ q. q.frame (pixel gfx px py)) (draw_rows_more n s y d go)
        ∙ draw_rows_outside n (row s y) (y + 1) px py (Drawable-next n y d) l (grind arith)
        ∙ row_outside n s y px py d l (grind arith)
  ]

  draw_rows_inside :
      (n : ℕ) (s : Screen) (y px py : ℕ)
      → Drawable gfx x y width n
      → x ≤ px
      → px < x + width
      → px < gfx.width
      → y ≤ py
      → py < y + n
      → (py ≡ y) ⊎ (py ≤ gfx.height)
      → (draw_rows n gfx s x y width clr).frame (pixel gfx px py) ≡ clr
  draw_rows_inside zero s y px py d a b c e f h = absurd (omega arith)
  draw_rows_inside (suc n) s y px py d a b c e f h = elim (le-or-lt gfx.height y) [
    | inl stop ↦
        ap (λ q. q.frame (pixel gfx px py)) (draw_rows_last n s y d stop)
        ∙ ap (λ k. (row s y).frame (pixel gfx px k)) (grind arith)
        ∙ row_inside n s y px d a b c
    | inr go ↦
        ap (λ q. q.frame (pixel gfx px py)) (draw_rows_more n s y d go) ∙ elim (le-or-lt py y) [
          | inl same ↦
              draw_rows_outside n (row s y) (y + 1) px py (Drawable-next n y d) (px_fits d)
                (inr (inr (inr (inl (omega arith)))))
              ∙ ap (λ k. (row s y).frame (pixel gfx px k)) (omega arith)
              ∙ row_inside n s y px d a b c
          | inr later ↦
              draw_rows_inside n (row s y) (y + 1) px py (Drawable-next n y d) a b c (omega arith)
                (omega arith) (inr (grind arith))
        ]
  ]
    where
      px_fits : Drawable gfx x y width (suc n) → px < gfx.stride
      px_fits e = let ws = e.1 in omega arith

-- The pixels that are painted: those of the rectangle in front of the right edge, in the first row
-- or in a row up to, and with, the one behind the last row of the screen.
abbrev pub painted : Gfx → ℕ → ℕ → ℕ → ℕ → ℕ → ℕ → Bool
painted gfx x y width height px py =
    leb x px
    && ltb px (x + width)
    && ltb px gfx.width
    && leb y py
    && ltb py (y + height)
    && (py == y || leb py gfx.height)

painted-true :
    (gfx : Gfx) (x y width height px py : ℕ)
    → painted gfx x y width height px py ≡ true
    → (x ≤ px)
      × (px < x + width)
      × (px < gfx.width)
      × (y ≤ py)
      × (py < y + height)
      × ((py ≡ y) ⊎ (py ≤ gfx.height))
painted-true gfx x y width height px py h = grind (arith, h)

painted-false :
    (gfx : Gfx) (x y width height px py : ℕ)
    → painted gfx x y width height px py ≡ false
    → (px < x)
      ⊎ ((x + width ≤ px)
          ⊎ ((gfx.width ≤ px) ⊎ ((py < y) ⊎ ((y + height ≤ py) ⊎ ((y < py) × (gfx.height < py))))))
painted-false gfx x y width height px py h = grind (arith, h)

-- For a rectangle whose left side is on the screen, in a buffer of 32 bits for a pixel that begins
-- below 2 ^ 62, whose rows are no shorter than the screen's, where the widths of the screen and the
-- rectangle add up to less than 2 ^ 26, the rectangle's lower edge has 32 bits, and the pixels of the
-- rows in front of it are less than 2 ^ 30: a pixel of it in front of the right edge has the colour,
-- if it is in the first row or in a row up to, and with, the one behind the last row of the screen;
-- every other pixel is as it was.
pub gfx_draw_rect_raw-painted :
    (gfx : Gfx) (s : Screen) (x y width height clr px py : ℕ)
    → Drawable gfx x y width height
    → px < gfx.stride
    → (gfx_draw_rect_raw gfx s x y width height clr).frame (pixel gfx px py)
      ≡ (if painted gfx x y width height px py then clr else s.frame (pixel gfx px py))
unfolding gfx_draw_rect_raw
gfx_draw_rect_raw-painted gfx s x y width height clr px py d l =
    elim (Bool-cases (painted gfx x y width height px py)) [
      | inl t ↦
          let (a, b, c, e, f, h) = painted-true gfx x y width height px py t in
          draw_rows_inside gfx x width clr height s y px py d a b c e f h
          ∙ ap (λ b. if b then clr else s.frame (pixel gfx px py)) (sym t)
      | inr t ↦
          draw_rows_outside gfx x width clr height s y px py d l
            (painted-false gfx x y width height px py t)
          ∙ ap (λ b. if b then clr else s.frame (pixel gfx px py)) (sym t)
    ]
