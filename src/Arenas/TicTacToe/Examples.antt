-- ===== src/Arenas/TicTacToe/Examples.antt =====
-- A game of tic-tac-toe.
use mathlib.Core.Option
use e_slams.Prelude.{[], if◌then◌else◌, map, none, refl, replicate, set, some, ◌∷◌, ◌≡◌}
use e_slams.Prelude.Int.{pos}
use e_slams.Json.{same_json_action}
use e_slams.Arena.{ScoresSum, is_legal, nat_action, only_for, player_1, player_2}
use e_slams.Arena.Contract.{Reachable, opened, played}
use e_slams.Arenas.TicTacToe.{State, apply_action, has_winner, initial_state, rules, settle}
use e_slams.Arenas.TicTacToe.Contract.{scores-tic_tac_toe}

-- One move before player 1 completes the top row.
abbrev before_win : State
before_win = record (initial_state (pos 1)) {
  turn = 4;
  public_state =
      some player_1 ∷ some player_1 ∷ none ∷ some player_2 ∷ some player_2 ∷ replicate 4 none;
  legal_actions_by_player = only_for player_1 (map nat_action (2 ∷ 5 ∷ 6 ∷ 7 ∷ 8 ∷ []));
}

abbrev after_centre : State
after_centre = settle (initial_state (pos 1)) player_1 (set (replicate 9 none) 4 (some player_1))

centre_played : apply_action (initial_state (pos 1)) player_1 (nat_action 4) ≡ some after_centre
unfolding apply_action is_legal initial_state same_json_action
centre_played = refl

abbrev centre_reached : Reachable rules after_centre
centre_reached = unfold rules in played (opened (pos 1)) player_1 (nat_action 4) centre_played

top_row_wins :
    Option.map (λ s. s.outcome) (apply_action before_win player_1 (nat_action 2))
    ≡ some (some (record { winner = some player_1; reason = "three_in_a_row"; extra = none }))
unfolding apply_action is_legal initial_state same_json_action settle has_winner
top_row_wins = refl

scores-tic_tac_toe_example : ScoresSum (if after_centre.terminal then 1 else 0) after_centre.scores
scores-tic_tac_toe_example = scores-tic_tac_toe after_centre centre_reached
