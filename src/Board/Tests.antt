-- ===== src/Board/Tests.antt =====
-- The one row of the small board.
use zepboot.Base.{refl}
use zepboot.Platform.Example.{board, row, area}
use zepboot.Platform.{ok}
use zepboot.Board.{zb_slt_area_get}
use zepboot.Board.Bind.{IsBound, zb_slt_area_get-IsBound}

zb_slt_area_get-IsBound_example : IsBound board row area
unfolding zb_slt_area_get
zb_slt_area_get-IsBound_example = zb_slt_area_get-IsBound board area 0 row (ok, area) refl refl refl
