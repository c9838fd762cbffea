-- ===== src/Mines.antt =====
-- Minesweeper, common/ui/screens/minesweeper.c: the field and the clicks, without what is drawn.
pub mod Field
mod Examples
use light_loader.Common.{
  ℕ, zero, suc, ◌+◌, ◌-◌, ◌*◌, ◌%◌, ◌==◌, ltb, leb, if◌then◌else◌, Bool, true, false, not, ◌&&◌,
  ◌||◌, w8, w32, add32, sub32, Option, none, some,
}

-- `struct tile`, whose index is its place in the array.
pub record Tile : Type 0 where
  pub has_mine : Bool
  pub is_uncovered : Bool
  pub is_flagged : Bool
  pub mines_around : ℕ

abbrev pub no_tile : Tile
no_tile = record { has_mine = false; is_uncovered = false; is_flagged = false; mines_around = 0 }

abbrev pub Tiles : Type 0
Tiles = ℕ → Tile

unfoldable pub count_mine : Tile → Tile
count_mine t = record t { mines_around = (t.mines_around + 1) % w8 }

unfoldable pub put_tile : Tiles → ℕ → Tile → Tiles
put_tile tiles i t j = if j == i then t else tiles j

-- `_init_mine_tile`: the inner loop from tile `at` on, and the outer one.
unfoldable pub h_loop : ℕ → Tiles → ℕ → Tiles
h_loop zero tiles at = tiles
h_loop (suc n) tiles at = h_loop n (put_tile tiles at (count_mine (tiles at))) (at + 1)

unfoldable pub v_loop : ℕ → ℕ → ℕ → Tiles → ℕ → Tiles
v_loop zero hstep field_xres tiles at = tiles
v_loop (suc n) hstep field_xres tiles at =
    v_loop n hstep field_xres (h_loop hstep tiles at) (at + field_xres)

pub record Edges : Type 0 where
  pub left : Bool
  pub right : Bool
  pub top : Bool
  pub bottom : Bool

unfoldable pub is_tile_at_edge : ℕ → ℕ → ℕ → Edges
is_tile_at_edge field_xres tilecount index = record {
  left = index % field_xres == 0;
  right = not (index % field_xres == 0) && (index + 1) % field_xres == 0;
  top = ltb index field_xres;
  bottom = not (ltb index field_xres) && ltb (sub32 tilecount field_xres) index;
}

-- The first tile of the rectangle that is counted, and its size.
unfoldable pub walker : ℕ → ℕ → Edges → ℕ
walker field_xres index e = index - (if e.left then 0 else 1) - (if e.top then 0 else field_xres)

unfoldable pub steps : Bool → Bool → ℕ
steps low high = if low || high then 2 else 3

unfoldable pub init_mine_tile : ℕ → ℕ → Tiles → ℕ → Tiles
init_mine_tile field_xres tilecount tiles index =
    let e = is_tile_at_edge field_xres tilecount index in
    v_loop (steps e.top e.bottom) (steps e.left e.right) field_xres tiles
      (walker field_xres index e)

-- The globals of the game.
pub record Game : Type 0 where
  pub tiles : Tiles
  pub tilecount : ℕ
  pub minecount : ℕ
  pub field_xres : ℕ
  pub is_alive : Bool
  pub levels_cleared : ℕ
  pub tiles_cleared : ℕ
  pub actual_mines_left : ℕ
  pub mines_left : ℕ
  pub explode_count : ℕ

-- The loop that looks for a tile without a mine: `random` are the numbers that the firmware gives
-- from here on, and `none` means that the fuel did not reach one.
unfoldable pub find_free : ℕ → Tiles → ℕ → (ℕ → ℕ) → ℕ → Option (ℕ × ℕ)
find_free zero tiles tilecount random i = none
find_free (suc fuel) tiles tilecount random i =
    let rest = find_free fuel tiles tilecount random (i + 1) in
    let c_tile = random i % tilecount in
    if (tiles c_tile).has_mine then rest else some (c_tile, i + 1)

unfoldable pub place_mines : ℕ → ℕ → Tiles → ℕ → (ℕ → ℕ) → ℕ → Option Tiles
place_mines fuel zero tiles tilecount random i = some tiles
place_mines fuel (suc n) tiles tilecount random i = elim (find_free fuel tiles tilecount random i) [
  | none ↦ none
  | some (c_tile, next) ↦
      place_mines fuel n (put_tile tiles c_tile (record (tiles c_tile) { has_mine = true }))
        tilecount random next
]

unfoldable pub count_loop : ℕ → ℕ → ℕ → Tiles → ℕ → Tiles
count_loop zero field_xres tilecount tiles i = tiles
count_loop (suc n) field_xres tilecount tiles i =
    let skip = count_loop n field_xres tilecount tiles (i + 1) in
    let counted =
      count_loop n field_xres tilecount (init_mine_tile field_xres tilecount tiles i) (i + 1) in
    if (tiles i).has_mine then counted else skip

abbrev pub initial_minecount : ℕ
initial_minecount = 16

unfoldable pub init_minefield : ℕ → Game → (ℕ → ℕ) → Option Game
init_minefield fuel g random =
    elim (place_mines fuel initial_minecount (λ j. no_tile) g.tilecount random 0) [
      | none ↦ none
      | some tiles ↦ some (record g {
        tiles = count_loop g.tilecount g.field_xres g.tilecount tiles 0;
        minecount = initial_minecount;
        is_alive = true;
        tiles_cleared = 0;
        mines_left = initial_minecount;
        actual_mines_left = initial_minecount;
      })
    ]

-- The branches of `tile_onclick`, for tile `i`.
unfoldable pub toggle_flag : Game → ℕ → Game
toggle_flag g i =
    let t = g.tiles i in
    let tiles = put_tile g.tiles i (record t { is_flagged = not t.is_flagged }) in
    if not t.is_flagged && not (g.mines_left == 0)
    then record g {
      tiles = tiles;
      mines_left = g.mines_left - 1;
      actual_mines_left = if t.has_mine then sub32 g.actual_mines_left 1 else g.actual_mines_left;
    }
    else if t.is_flagged
    then record g {
      tiles = tiles;
      mines_left = add32 g.mines_left 1;
      actual_mines_left = if t.has_mine then add32 g.actual_mines_left 1 else g.actual_mines_left;
    }
    else record g { tiles = tiles }

unfoldable pub uncover : Game → ℕ → Game
uncover g i =
    let cleared = add32 g.tiles_cleared 1 in
    let won = leb (sub32 g.tilecount g.minecount) cleared in
    record g {
      tiles = put_tile g.tiles i (record (g.tiles i) { is_uncovered = true });
      tiles_cleared = cleared;
      levels_cleared = if won then add32 g.levels_cleared 1 else g.levels_cleared;
      is_alive = not won;
    }

unfoldable pub show_mines : ℕ → Tiles → ℕ → Tiles
show_mines zero tiles i = tiles
show_mines (suc n) tiles i =
    let skip = show_mines n tiles (i + 1) in
    let shown =
      show_mines n (put_tile tiles i (record (tiles i) { is_uncovered = true })) (i + 1) in
    if (tiles i).has_mine then shown else skip

unfoldable pub explode : Game → Game
explode g = record g {
  tiles = show_mines g.tilecount g.tiles 0;
  is_alive = false;
  explode_count = add32 g.explode_count 1;
}

unfoldable pub tile_onclick : Game → ℕ → Bool → Game
tile_onclick g i rmb =
    let t = g.tiles i in
    if not g.is_alive
    then g
    else if rmb && not t.is_uncovered
    then toggle_flag g i
    else if not t.has_mine && not t.is_flagged
    then uncover g i
    else if t.has_mine
    then explode g
    else g
