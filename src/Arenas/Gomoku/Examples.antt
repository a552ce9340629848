-- ===== src/Arenas/Gomoku/Examples.antt =====
-- A game of Gomoku.
use e_slams.Prelude.{List, Option, [], false, if◌then◌else◌, none, refl, some, true, ◌↔◌, ◌∷◌, ◌≡◌}
use e_slams.Arena.{Player, ScoresSum, player_1, player_2}
use e_slams.Arenas.Stones.{Board, State, initial_state, rules}
use e_slams.Arenas.Gomoku.{count_from, count_line, gomoku_rules, has_line, size}
use e_slams.Arenas.Gomoku.Play.{scores-gomoku}
use e_slams.Arenas.Gomoku.Lines.{IsLine, has_line_lem}
use e_slams.Prelude.Int.{pos}
use e_slams.Arena.Contract.{opened}

abbrev row_of_five : List (Option Player)
row_of_five =
    none ∷ some player_1 ∷ some player_1 ∷ some player_1 ∷ some player_1 ∷ some player_1 ∷ []

abbrev board : Board
board = row_of_five ∷ []

five_found : has_line board 0 3 player_1 ≡ true
unfolding has_line count_line count_from
five_found = refl

other_seat : has_line board 0 3 player_2 ≡ false
unfolding has_line count_line count_from
other_seat = refl

has_line_lem_example : (has_line board 0 3 player_1 ≡ true) ↔ IsLine board 0 3 player_1
has_line_lem_example = has_line_lem board 0 3 player_1

abbrev opening : State
opening = initial_state size has_line "five_in_a_row" "draw" (pos 7)

scores-gomoku_example : ScoresSum (if opening.terminal then 1 else 0) opening.scores
unfolding gomoku_rules rules initial_state
scores-gomoku_example = scores-gomoku opening (opened (pos 7))
