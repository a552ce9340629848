-- ===== src/Arenas/Stones.antt =====
-- What src/eslams/arenas/gomoku.py and src/eslams/arenas/hex.py have in common: a square board on
-- which the seats put stones on empty cells in turn; the board and the steps on it serve
-- src/eslams/arenas/othello.py too. A stone is the player who put it.
pub mod Board
pub mod Free
pub mod Contract
use e_slams.Prelude.{
  Bool, List, Option, String, [], all, false, get_or, if◌then◌else◌, is_none, is_some, leb, map,
  none, range, replicate, set, some, suc, zero, ℕ, ◌%◌, ◌&&◌, ◌*◌, ◌++◌, ◌+◌, ◌/◌, ◌||◌, ◌∷◌,
}
use e_slams.Prelude.Int.{ℤ}
use e_slams.Json.{Json}
use e_slams.Arena.{
  ArenaState, Outcome, Player, as_index, is_int, is_legal, nat_action, only_for, other, player_1,
  same_player, win_scores,
}
use e_slams.Arena.Contract.{Rules}

-- public_state["board"]
abbrev pub Board : Type 0
Board = List (List (Option Player))

abbrev pub State : Type 0
State = ArenaState Board Unit

-- board[row][col]
abbrev pub cell : Board → ℕ → ℕ → Option Player
cell board row col = get_or (get_or board row []) col none

-- board[row][col] = _stone(player_id)
abbrev pub place : Board → ℕ → ℕ → Player → Board
place board row col stone = set board row (set (get_or board row []) col (some stone))

-- `_board_full`
abbrev pub board_full : Board → Bool
board_full board = all (λ row. all is_some row) board

abbrev pub holds : Option Player → Player → Bool
holds none stone = false
holds (some p) stone = same_player p stone

abbrev pub Cell : Type 0
Cell = ℕ × ℕ

-- A component of a direction: -1, 0 or 1.
pub data Delta : Type 0 where
  back stay on : Delta

-- A coordinate one step along; there is none below zero.
abbrev pub step : Delta → ℕ → Option ℕ
step back zero = none
step back (suc n) = some n
step stay n = some n
step on n = some (suc n)

abbrev pub both : Option ℕ → Option ℕ → Option Cell
both (some r) (some c) = some (r, c)
both _ _ = none

-- The cell one step along, where it has no negative coordinate.
abbrev pub neighbor : Cell → Delta × Delta → Option Cell
neighbor p d = both (step d.0 p.0) (step d.1 p.1)

-- The cells of `_legal_cells` in a row, from the columns.
pub row_cells : Board → ℕ → ℕ → List ℕ → List ℕ
row_cells board size row [] = []
row_cells board size row (col ∷ rest) =
    let others = row_cells board size row rest in
    if is_none (cell board row col) then (row * size + col) ∷ others else others

pub cells_in : Board → ℕ → List ℕ → List ℕ
unfolding row_cells
cells_in board size [] = []
cells_in board size (row ∷ rest) = row_cells board size row (range size) ++ cells_in board size rest

-- `_legal_cells`
unfoldable pub legal_cells : Board → ℕ → List ℕ
unfolding cells_in
legal_cells board size = cells_in board size (range size)

-- An arena: its size, the test for a win by the stone at a row and column, and its two reasons.
module _ (size : ℕ) (wins : Board → ℕ → ℕ → Player → Bool) (won drawn : String) where
  -- `_state`
  unfoldable pub make_state : Board → ℕ → Player → ℤ → Option (Outcome Unit) → State
  unfolding legal_cells win_scores
  make_state board turn active seed given =
      let terminal = is_some given || leb (size * size) turn || board_full board in
      let outcome =
        if is_none given && terminal
        then some (record { winner = none; reason = drawn; extra = none })
        else given in
      record {
        turn = turn;
        active_player = active;
        public_state = board;
        legal_actions_by_player =
            only_for active (if terminal then [] else map nat_action (legal_cells board size));
        scores = win_scores outcome;
        terminal = terminal;
        outcome = outcome;
        seed = seed;
        forfeited = none;
      }

  unfoldable pub initial_state : ℤ → State
  unfolding make_state
  initial_state seed = make_state (replicate size (replicate size none)) 0 player_1 seed none

  -- The end of `apply_action`, from the cell.
  unfoldable pub settle : State → Player → ℕ → ℕ → State
  unfolding make_state
  settle s player row col =
      let board = place s.public_state row col player in
      make_state board (s.turn + 1) (other player) s.seed (
        if wins board row col player
        then some (record { winner = some player; reason = won; extra = none })
        else none)

  -- `apply_action`; `none` where it raises ValueError.
  unfoldable pub apply_action : State → Player → Json → Option State
  unfolding settle
  apply_action s player action =
      if is_int action && is_legal s player action
      then some (settle s player (as_index action / size) (as_index action % size))
      else none

  unfoldable pub rules : Rules Board Unit
  rules = record {
    initial_state = initial_state;
    apply_action = apply_action;
    max_turns = size * size;
    is_pending = λ _. false;
  }
