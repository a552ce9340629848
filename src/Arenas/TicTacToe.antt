-- ===== src/Arenas/TicTacToe.antt =====
-- Tic-tac-toe: src/eslams/arenas/tic_tac_toe.py. A mark is the player who made it.
pub mod Contract
mod Examples
use e_slams.Prelude.{
  Bool, List, Option, [], all, any, false, get_or, if◌then◌else◌, is_none, is_some, leb, map, none,
  replicate, set, some, ℕ, ◌&&◌, ◌+◌, ◌||◌, ◌∷◌,
}
use e_slams.Json.{Json}
use e_slams.Arena.{
  ArenaState, Outcome, Player, as_index, is_int, is_legal, nat_action, only_for, other, player_1,
  player_2, same_player, win_scores,
}
use e_slams.Arena.Contract.{Rules}
use e_slams.Prelude.Int.{ℤ}

abbrev pub max_turns : ℕ
max_turns = 9

-- public_state["board"], row by row
abbrev pub Board : Type 0
Board = List (Option Player)

abbrev pub State : Type 0
State = ArenaState Board Unit

abbrev owns : Board → Player → ℕ → Bool
owns board player i = elim (get_or board i none) [ none ↦ false | some p ↦ same_player p player ]

-- A line of `_winner`, owned by a player.
abbrev pub owns_line : Board → Player → ℕ × ℕ × ℕ → Bool
owns_line board player (a, b, c) = owns board player a && owns board player b && owns board player c

abbrev pub lines : List (ℕ × ℕ × ℕ)
lines =
    (0, 1, 2)
    ∷ (3, 4, 5)
    ∷ (6, 7, 8)
    ∷ (0, 3, 6)
    ∷ (1, 4, 7)
    ∷ (2, 5, 8)
    ∷ (0, 4, 8)
    ∷ (2, 4, 6)
    ∷ []

-- `_winner(board) is not None`
unfoldable pub has_winner : Board → Bool
has_winner board = any (λ l. owns_line board player_1 l || owns_line board player_2 l) lines

-- [index for index, cell in enumerate(board) if cell is None], counted from `k`
unfoldable pub empty_cells : ℕ → Board → List ℕ
empty_cells k [] = []
empty_cells k (cell ∷ board) =
    let rest = empty_cells (k + 1) board in if is_none cell then k ∷ rest else rest

-- `_state`
pub make_state : Board → ℕ → Player → ℤ → Option (Outcome Unit) → State
unfolding empty_cells win_scores
make_state board turn active seed given =
    let terminal = is_some given || leb 9 turn || all is_some board in
    let outcome =
      if is_none given && terminal
      then some (record { winner = none; reason = "draw"; extra = none })
      else given in
    record {
      turn = turn;
      active_player = active;
      public_state = board;
      legal_actions_by_player =
          only_for active (if terminal then [] else map nat_action (empty_cells 0 board));
      scores = win_scores outcome;
      terminal = terminal;
      outcome = outcome;
      seed = seed;
      forfeited = none;
    }

unfoldable pub initial_state : ℤ → State
unfolding make_state
initial_state seed = make_state (replicate 9 none) 0 player_1 seed none

-- The end of `apply_action`, from the marked board.
unfoldable pub settle : State → Player → Board → State
unfolding has_winner make_state
settle s player board = make_state board (s.turn + 1) (other player) s.seed (
    if has_winner board
    then some (record { winner = some player; reason = "three_in_a_row"; extra = none })
    else none)

-- `apply_action`; `none` where it raises ValueError.
unfoldable pub apply_action : State → Player → Json → Option State
unfolding settle
apply_action s player action =
    if is_int action && is_legal s player action
    then some (settle s player (set s.public_state (as_index action) (some player)))
    else none

unfoldable pub rules : Rules Board Unit
rules = record {
  initial_state = initial_state;
  apply_action = apply_action;
  max_turns = max_turns;
  is_pending = λ _. false;
}
