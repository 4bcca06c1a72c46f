-- ===== src/Entry/Examples.antt =====
-- The theorem about kernel/src/main.rs on a screen of 128 columns and 100 rows.
use prometheos.Base.{ℕ, ◌*◌, ◌≡◌, List, arith, length, replicate, length-replicate}
use prometheos.Entry.Drawn.{IsDrawn, draw_lem}

abbrev screen : List ℕ
screen = replicate 12800 0

screen_size : length screen ≡ 128 * 100
screen_size = length-replicate {A = ℕ} 12800 0

draw_lem_example : IsDrawn 128 100 screen
draw_lem_example = draw_lem 128 100 screen screen_size (omega (arith, screen_size)) (omega arith)
