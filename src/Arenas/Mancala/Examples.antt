-- ===== src/Arenas/Mancala/Examples.antt =====
-- Runs of Kalah on small inputs, and its theorems at them.
use e_slams.Prelude.{
  [], arith, if◌then◌else◌, none, refl, replicate, some, true, ◌%◌, ◌+◌, ◌==◌, ◌∷◌, ◌≡◌,
}
use e_slams.Prelude.Int.{pos, ℤ}
use e_slams.Json.{Json, same_json_action}
use e_slams.Arena.{ScoresSum, is_legal, nat_action, player_1, player_2}
use e_slams.Arena.Contract.{Reachable, opened, played}
use e_slams.Arenas.Mancala.{Board, State, apply_action, initial_state, move, opening, rules, settle}
use e_slams.Arenas.Mancala.Legal.{IsSound, mancala-IsSound}
use e_slams.Arenas.Mancala.Sowing.{move_seat}
use e_slams.Arenas.Mancala.Contract.{scores-mancala}

-- Pit 2 of the opening sows its four stones up to the store.
abbrev after_pit_2 : Board
after_pit_2 = record {
  pits = record { first = 4 ∷ 4 ∷ 0 ∷ 5 ∷ 5 ∷ 5 ∷ []; second = replicate 6 4 };
  stores = record { first = 1; second = 0 };
}

move_pit_2 : move opening player_1 2 ≡ (player_1, after_pit_2)
unfolding move
move_pit_2 = refl

-- A capture: the last stone falls into an empty pit opposite three stones.
abbrev before_capture : Board
before_capture = record {
  pits = record { first = 1 ∷ 0 ∷ 0 ∷ 0 ∷ 0 ∷ 2 ∷ []; second = 0 ∷ 0 ∷ 0 ∷ 0 ∷ 3 ∷ 0 ∷ [] };
  stores = record { first = 20; second = 22 };
}

move_capture : move before_capture player_1 0 ≡ (
  player_2,
  record {
    pits = record { first = 0 ∷ 0 ∷ 0 ∷ 0 ∷ 0 ∷ 2 ∷ []; second = 0 ∷ 0 ∷ 0 ∷ 0 ∷ 0 ∷ 0 ∷ [] };
    stores = record { first = 24; second = 22 };
  },
)
unfolding move
move_capture = refl

abbrev seed : ℤ
seed = pos 1

abbrev second_state : State
second_state = settle (initial_state seed) (move opening player_1 2)

pit_2_played : apply_action (initial_state seed) player_1 (nat_action 2) ≡ some second_state
unfolding apply_action is_legal initial_state same_json_action
pit_2_played = refl

-- `true` is an integer to Python, and no legal pit.
bool_refused : apply_action (initial_state seed) player_1 (Json.bool true) ≡ none
unfolding apply_action is_legal initial_state same_json_action
bool_refused = refl

abbrev second_reached : Reachable rules second_state
second_reached = unfold rules in played (opened seed) player_1 (nat_action 2) pit_2_played

mancala-IsSound_example : IsSound second_state
mancala-IsSound_example = mancala-IsSound second_state second_reached

scores-mancala_example : ScoresSum (if second_state.terminal then 1 else 0) second_state.scores
scores-mancala_example = scores-mancala second_state second_reached

move_seat_example :
    ((move opening player_1 2).0 ≡ (if (2 + 4) % 13 == 6 then player_1 else player_2))
    × ((move opening player_1 2).1.stores.second ≡ 0)
move_seat_example = move_seat opening player_1 2 (omega arith)
