-- ===== src/Arenas/ConnectFour/Examples.antt =====
-- A game of Connect Four.
use e_slams.Prelude.{if◌then◌else◌, none, refl, replicate, some, true, ◌≡◌}
use e_slams.Prelude.Int.{pos}
use e_slams.Json.{same_json_action}
use e_slams.Arena.{ScoresSum, is_legal, nat_action, player_1, player_2}
use e_slams.Arena.Contract.{Reachable, opened, played}
use e_slams.Arenas.ConnectFour.{
  Board, State, apply_action, cell, cols, drop, four_in_a_row, initial_state, place, rows, rules,
  settle,
}
use e_slams.Arenas.ConnectFour.Gravity.{IsStacked, connect_four-IsStacked}
use e_slams.Arenas.ConnectFour.Contract.{scores-connect_four}

abbrev empty_board : Board
empty_board = replicate rows (replicate cols none)

abbrev column_3 : Board
column_3 = drop rows empty_board 3 player_1

-- The disc falls to the bottom, and a second one comes to lie on it.
two_discs :
    (cell (drop rows column_3 3 player_2) 5 3 ≡ some player_1)
    × (cell (drop rows column_3 3 player_2) 4 3 ≡ some player_2)
unfolding drop
two_discs = (refl, refl)

-- A falling diagonal, to the left.
diagonal :
    four_in_a_row
      (place
        (place (place (place empty_board 2 4 player_2) 3 3 player_2) 4 2 player_2)
        5
        1
        player_2)
      player_2
    ≡ true
unfolding four_in_a_row
diagonal = refl

abbrev after_column_3 : State
after_column_3 = settle (initial_state (pos 1)) player_1 column_3

column_3_played : apply_action (initial_state (pos 1)) player_1 (nat_action 3) ≡ some after_column_3
unfolding apply_action is_legal initial_state same_json_action
column_3_played = refl

abbrev column_3_reached : Reachable rules after_column_3
column_3_reached = unfold rules in played (opened (pos 1)) player_1 (nat_action 3) column_3_played

scores-connect_four_example :
    ScoresSum (if after_column_3.terminal then 1 else 0) after_column_3.scores
scores-connect_four_example = scores-connect_four after_column_3 column_3_reached

connect_four-IsStacked_example : IsStacked after_column_3.public_state
connect_four-IsStacked_example = connect_four-IsStacked after_column_3 column_3_reached
