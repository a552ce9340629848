-- ===== src/Arenas/ConnectFour.antt =====
-- Connect Four: src/eslams/arenas/connect_four.py. A disc is the player who dropped it.
pub mod Contract
pub mod Gravity
mod Examples
use e_slams.Prelude.{
  Bool, List, Option, [], all, any, false, get_or, if◌then◌else◌, is_none, is_some, leb, ltb, map,
  none, range, replicate, set, some, suc, zero, ℕ, ◌&&◌, ◌*◌, ◌+◌, ◌-◌, ◌||◌, ◌∷◌,
}
use e_slams.Json.{Json}
use e_slams.Arena.{
  ArenaState, Outcome, Player, as_index, is_int, is_legal, nat_action, only_for, other, player_1,
  same_player, win_scores,
}
use e_slams.Arena.Contract.{Rules}
use e_slams.Prelude.Int.{ℤ}

abbrev pub rows : ℕ
rows = 6

abbrev pub cols : ℕ
cols = 7

-- public_state["board"]: the rows from the top
abbrev pub Board : Type 0
Board = List (List (Option Player))

abbrev pub State : Type 0
State = ArenaState Board Unit

-- board[row][col]
abbrev pub cell : Board → ℕ → ℕ → Option Player
cell board row col = get_or (get_or board row []) col none

abbrev pub place : Board → ℕ → ℕ → Player → Board
place board row col disc = set board row (set (get_or board row []) col (some disc))

-- The loop of `apply_action`, from the row below `height` up: the first empty cell takes the disc.
unfoldable pub drop : ℕ → Board → ℕ → Player → Board
drop zero board col disc = board
drop (suc row) board col disc =
    let above = drop row board col disc in
    if is_none (cell board row col) then place board row col disc else above

-- The directions of `_outcome`: (1, 0), (0, 1), (1, 1) and (1, -1)
pub data Direction : Type 0 where
  down right down_right down_left : Direction

-- The cell `i` steps on holds the disc; a step off the board does not.
steps_on : Board → Player → ℕ → ℕ → Direction → ℕ → Bool
steps_on board disc row col direction i = elim direction [
  | down ↦ inside (row + i) col
  | right ↦ inside row (col + i)
  | down_right ↦ inside (row + i) (col + i)
  | down_left ↦ leb i col && inside (row + i) (col - i)
]
  where
    inside : ℕ → ℕ → Bool
    inside r c =
        ltb r rows
        && ltb c cols
        && elim (cell board r c) [ none ↦ false | some p ↦ same_player p disc ]

-- `_outcome(board, player_id, disc) is not None`
unfoldable pub four_in_a_row : Board → Player → Bool
unfolding steps_on
four_in_a_row board disc =
    any
      (λ row.
        any
          (λ col.
            any (λ direction. all (λ i. steps_on board disc row col direction i) (range 4))
              (down ∷ right ∷ down_right ∷ down_left ∷ []))
          (range cols))
      (range rows)

abbrev pub board_full : Board → Bool
board_full board = all is_some (get_or board 0 [])

-- [col for col in range(COLS) if board[0][col] is None]
unfoldable pub open_columns : Board → List ℕ → List ℕ
open_columns board [] = []
open_columns board (col ∷ rest) =
    let others = open_columns board rest in
    if is_none (cell board 0 col) then col ∷ others else others

-- `_state`
pub make_state : Board → ℕ → Player → ℤ → Option (Outcome Unit) → State
unfolding open_columns win_scores
make_state board turn active seed given =
    let terminal = is_some given || leb (rows * cols) turn || board_full board in
    let outcome =
      if is_none given && terminal
      then some (record { winner = none; reason = "draw"; extra = none })
      else given in
    record {
      turn = turn;
      active_player = active;
      public_state = board;
      legal_actions_by_player =
          only_for active
            (if terminal then [] else map nat_action (open_columns board (range cols)));
      scores = win_scores outcome;
      terminal = terminal;
      outcome = outcome;
      seed = seed;
      forfeited = none;
    }

unfoldable pub initial_state : ℤ → State
unfolding make_state
initial_state seed = make_state (replicate rows (replicate cols none)) 0 player_1 seed none

-- The end of `apply_action`, from the board with the disc.
unfoldable pub settle : State → Player → Board → State
unfolding four_in_a_row make_state
settle s player board = make_state board (s.turn + 1) (other player) s.seed (
    if four_in_a_row board player
    then some (record { winner = some player; reason = "four_in_a_row"; extra = none })
    else none)

-- `apply_action`; `none` where it raises ValueError.
unfoldable pub apply_action : State → Player → Json → Option State
unfolding drop settle
apply_action s player action =
    if is_int action && is_legal s player action
    then some (settle s player (drop rows s.public_state (as_index action) player))
    else none

unfoldable pub rules : Rules Board Unit
rules = record {
  initial_state = initial_state;
  apply_action = apply_action;
  max_turns = rows * cols;
  is_pending = λ _. false;
}
