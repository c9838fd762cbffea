-- ===== src/Mines/Field.antt =====
-- A mine is counted in exactly the tiles around it and its own.
use light_loader.Common.{
  ℕ, zero, suc, ◌+◌, ◌-◌, ◌*◌, ◌/◌, ◌%◌, ◌≤◌, ◌<◌, ◌≡◌, ◌≢◌, refl, ap, ◌∙◌, ◌⊎◌, inl, inr, true,
  not, ◌&&◌, ◌==◌, ltb, arith, ==_refl, lt→==_false, gt→==_false, le-or-lt, sub32, Bool-cases,
  ltb→lt, ltb→ge, ==_iff, min,
}
use light_loader.Mines.{
  Tile, Tiles, count_mine, put_tile, h_loop, v_loop, is_tile_at_edge, walker, steps, init_mine_tile,
}

put_here : (tiles : Tiles) (i : ℕ) (t : Tile) → put_tile tiles i t i ≡ t
unfolding put_tile
put_here tiles i t = rw (==_refl i)

put_other :
    (tiles : Tiles) (i : ℕ) (t : Tile) (j : ℕ) → (j < i) ⊎ (i < j) → put_tile tiles i t j ≡ tiles j
unfolding put_tile
put_other tiles i t j (inl lt) = rw (lt→==_false j i lt)
put_other tiles i t j (inr gt) = rw (gt→==_false j i gt)

h_loop-out :
    (n : ℕ) (tiles : Tiles) (at j : ℕ) → (j < at) ⊎ (at + n ≤ j) → h_loop n tiles at j ≡ tiles j
unfolding h_loop
h_loop-out zero tiles at j o = refl
h_loop-out (suc n) tiles at j o =
    h_loop-out n _ (at + 1) j (grind arith)
    ∙ put_other tiles at (count_mine (tiles at)) j (grind arith)

h_loop-in :
    (n : ℕ) (tiles : Tiles) (at j : ℕ)
    → at ≤ j
    → j < at + n
    → h_loop n tiles at j ≡ count_mine (tiles j)
unfolding h_loop
h_loop-in zero tiles at j lo hi = absurd (omega arith)
h_loop-in (suc n) tiles at j lo hi = elim (le-or-lt j at) [
  | inl first ↦
      let e : j ≡ at = omega arith in
      h_loop-out n _ (at + 1) j (inl (omega arith))
      ∙ ap (put_tile tiles at (count_mine (tiles at))) e
      ∙ put_here tiles at (count_mine (tiles at))
      ∙ ap (λ k. count_mine (tiles k)) (omega arith)
  | inr later ↦
      h_loop-in n _ (at + 1) j (omega arith) (omega arith)
      ∙ ap count_mine (put_other tiles at (count_mine (tiles at)) j (inr later))
]

v_loop-out :
    (v h : ℕ) (tiles : Tiles) (at j : ℕ)
    → ((k : ℕ) → k < v → (j < at + 8 * k) ⊎ (at + 8 * k + h ≤ j))
    → v_loop v h 8 tiles at j ≡ tiles j
unfolding v_loop
v_loop-out zero h tiles at j o = refl
v_loop-out (suc v) h tiles at j o =
    v_loop-out v h _ (at + 8) j (λ k lt. elim (o (suc k) (omega arith)) [
      | inl a ↦ inl (omega arith)
      | inr b ↦ inr (omega arith)
    ])
    ∙ h_loop-out h tiles at j
        (elim (o 0 (omega arith)) [ inl a ↦ inl (omega arith) | inr b ↦ inr (omega arith) ])

v_loop-in :
    (v h : ℕ) (tiles : Tiles) (at j k : ℕ)
    → h ≤ 8
    → k < v
    → at + 8 * k ≤ j
    → j < at + 8 * k + h
    → v_loop v h 8 tiles at j ≡ count_mine (tiles j)
unfolding v_loop
v_loop-in zero h tiles at j k le lt lo hi = absurd (omega arith)
v_loop-in (suc v) h tiles at j zero le lt lo hi =
    v_loop-out v h _ (at + 8) j (λ i l. inl (omega arith))
    ∙ h_loop-in h tiles at j (omega arith) (omega arith)
v_loop-in (suc v) h tiles at j (suc k) le lt lo hi =
    v_loop-in v h _ (at + 8) j k le (omega arith) (omega arith) (omega arith)
    ∙ ap count_mine (h_loop-out h tiles at j (inr (omega arith)))

-- Tiles `i` and `j` of a field eight tiles wide touch, or are the same.
abbrev pub Near : ℕ → ℕ → Type 0
Near i j = (i % 8 ≤ j % 8 + 1) × (j % 8 ≤ i % 8 + 1) × (i / 8 ≤ j / 8 + 1) × (j / 8 ≤ i / 8 + 1)

-- The rectangle of the neighbours of `i`, by its first tile, its width and its height.
abbrev Around : ℕ → ℕ → ℕ → ℕ → Type 0
Around i s h v =
    (s % 8 ≡ i % 8 - 1)
    × (s / 8 ≡ i / 8 - 1)
    × (i % 8 - 1 + h ≡ min (i % 8 + 2) 8)
    × (i / 8 - 1 + v ≡ min (i / 8 + 2) 8)

steps-columns :
    (i : ℕ)
    → i % 8 - 1 + steps (i % 8 == 0) (not (i % 8 == 0) && (i + 1) % 8 == 0) ≡ min (i % 8 + 2) 8
unfolding steps
steps-columns i = elim (le-or-lt (i % 8) 0) [
  | inl left ↦
      let e : (i % 8 == 0) ≡ true = (==_iff (i % 8) 0).1 (omega arith) in rw e (omega arith)
  | inr off ↦ elim (Bool-cases ((i + 1) % 8 == 0)) [
    | inl right ↦
        let e : (i + 1) % 8 ≡ 0 = (==_iff ((i + 1) % 8) 0).0 right in
        rw (gt→==_false (i % 8) 0 off, right) (omega (arith, e))
    | inr inner ↦
        let ne : (i + 1) % 8 ≢ 0 = λ e. ground (arith, (==_iff ((i + 1) % 8) 0).1 e) in
        rw (gt→==_false (i % 8) 0 off, inner) (omega (arith, ne))
  ]
]

steps-rows :
    (i : ℕ)
    → i < 64
    → i ≢ 56
    → i / 8 - 1 + steps (ltb i 8) (not (ltb i 8) && ltb (sub32 64 8) i) ≡ min (i / 8 + 2) 8
unfolding steps
steps-rows i lt ne = elim (Bool-cases (ltb i 8)) [
  | inl top ↦ rw top (omega (arith, ltb→lt i 8 top))
  | inr off ↦ elim (Bool-cases (ltb (sub32 64 8) i)) [
    | inl bottom ↦ rw (off, bottom) (omega (arith, ltb→ge i 8 off, ltb→lt (sub32 64 8) i bottom))
    | inr inner ↦ rw (off, inner) (omega (arith, ltb→ge i 8 off, ltb→ge (sub32 64 8) i inner))
  ]
]

walker-start :
    (i : ℕ)
    → (walker 8 i (is_tile_at_edge 8 64 i) % 8 ≡ i % 8 - 1)
      × (walker 8 i (is_tile_at_edge 8 64 i) / 8 ≡ i / 8 - 1)
unfolding walker is_tile_at_edge
walker-start i = elim (Bool-cases (i % 8 == 0)) [
  | inl left ↦
      let e : i % 8 ≡ 0 = (==_iff (i % 8) 0).0 left in
      elim (Bool-cases (ltb i 8)) [
        | inl top ↦
            rw (left, top) (omega (arith, e, ltb→lt i 8 top), omega (arith, e, ltb→lt i 8 top))
        | inr low ↦
            rw (left, low) (omega (arith, e, ltb→ge i 8 low), omega (arith, e, ltb→ge i 8 low))
      ]
  | inr off ↦
      let ne : i % 8 ≢ 0 = λ e. ground (arith, (==_iff (i % 8) 0).1 e) in
      elim (Bool-cases (ltb i 8)) [
        | inl top ↦
            rw (off, top) (omega (arith, ne, ltb→lt i 8 top), omega (arith, ne, ltb→lt i 8 top))
        | inr low ↦
            rw (off, low) (omega (arith, ne, ltb→ge i 8 low), omega (arith, ne, ltb→ge i 8 low))
      ]
]

covers-Near :
    (i s h v j : ℕ) (tiles : Tiles)
    → i < 64
    → j < 64
    → Around i s h v
    → Near i j
    → v_loop v h 8 tiles s j ≡ count_mine (tiles j)
covers-Near i s h v j tiles li lj (col, row, w, t) (a, b, c, d) =
    v_loop-in v h tiles s j (j / 8 - s / 8) (omega (arith, w)) (omega (arith, row, t))
      (omega (arith, col, row)) (omega (arith, col, row, w))

covers-far :
    (i s h v j : ℕ) (tiles : Tiles)
    → i < 64
    → Around i s h v
    → (Near i j → ⊥)
    → v_loop v h 8 tiles s j ≡ tiles j
covers-far i s h v j tiles li (col, row, w, t) far = v_loop-out v h tiles s j (λ k lt.
    elim (le-or-lt (s + 8 * k) j) [
      | inr before ↦ inl before
      | inl from ↦ elim (le-or-lt (s + 8 * k + h) j) [
        | inl after ↦ inr after
        | inr inside ↦ absurd (
            far (
              omega (arith, col, row, w, t),
              omega (arith, col, row, w, t),
              omega (arith, col, row, w, t),
              omega (arith, col, row, w, t),
            ))
      ]
    ])

-- On the game's field of 8 by 8, for every tile but the first of the last row: a mine there is counted
-- once in its own tile and in each tile that touches it, and nothing else changes.
pub init_mine_tile-Near :
    (tiles : Tiles) (i j : ℕ)
    → i < 64
    → i ≢ 56
    → j < 64
    → (Near i j → init_mine_tile 8 64 tiles i j ≡ count_mine (tiles j))
      × ((Near i j → ⊥) → init_mine_tile 8 64 tiles i j ≡ tiles j)
unfolding init_mine_tile is_tile_at_edge
init_mine_tile-Near tiles i j li ne lj =
    let (col, row) = walker-start i in
    let around : Around i (walker 8 i (is_tile_at_edge 8 64 i))
        (steps (i % 8 == 0) (not (i % 8 == 0) && (i + 1) % 8 == 0))
        (steps (ltb i 8) (not (ltb i 8) && ltb (sub32 64 8) i)) =
      (col, row, steps-columns i, steps-rows i li ne) in
    (covers-Near i _ _ _ j tiles li lj around, covers-far i _ _ _ j tiles li around)
