-- ===== src/Mines/Examples.antt =====
-- A mine in the corner of an empty field.
use light_loader.Common.{◌≡◌, arith}
use light_loader.Mines.{Tiles, no_tile, count_mine, init_mine_tile}
use light_loader.Mines.Field.{Near, init_mine_tile-Near}

abbrev field : Tiles
field = λ j. no_tile

init_mine_tile-Near_example :
    (Near 7 14 → init_mine_tile 8 64 field 7 14 ≡ count_mine (field 14))
    × ((Near 7 14 → ⊥) → init_mine_tile 8 64 field 7 14 ≡ field 14)
init_mine_tile-Near_example =
    init_mine_tile-Near field 7 14 (omega arith) (omega arith) (omega arith)
