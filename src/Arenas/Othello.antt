-- ===== src/Arenas/Othello.antt =====
-- Othello: src/eslams/arenas/othello.py, on the boards of `Stones`. A disc is the player whose it is.
pub mod Walk
pub mod Discs
pub mod Legal
pub mod Playable
pub mod Length
pub mod Contract
mod Examples
use e_slams.Prelude.{
  Bool, List, Option, [], count_if, false, if◌then◌else◌, is_none, is_some, ltb, map, none, not,
  range, replicate, some, str_eq, suc, sum, true, zero, ℕ, ◌&&◌, ◌*◌, ◌++◌, ◌+◌, ◌-◌, ◌>>=◌, ◌||◌,
  ◌∷◌,
}
use e_slams.Prelude.Int.{pos, ℤ}
use e_slams.Json.{Json, arr, cons, int, nil, str}
use e_slams.Arena.{
  ArenaState, BySeat, Outcome, Player, is_legal, nat_action, only_for, other, player_1, player_2,
  win_scores,
}
use e_slams.Arena.Contract.{Rules}
use e_slams.Arenas.Stones.{
  Board, Cell, Delta, back, board_full, cell, holds, neighbor, on, place, stay,
}

abbrev pub size : ℕ
size = 8

abbrev pub max_turns : ℕ
max_turns = 2 * (size * size - 4)

-- The outcome keeps `disc_counts`.
abbrev pub OthelloState : Type 0
OthelloState = ArenaState Board (BySeat ℕ)

abbrev pub directions : List (Delta × Delta)
directions =
    (back, back)
    ∷ (back, stay)
    ∷ (back, on)
    ∷ (stay, back)
    ∷ (stay, on)
    ∷ (on, back)
    ∷ (on, stay)
    ∷ (on, on)
    ∷ []

-- `_inside`
abbrev pub inside : Cell → Bool
inside p = ltb p.0 size && ltb p.1 size

-- _inside(row, col) and board[row][col] == disc
abbrev pub has_disc : Board → Player → Cell → Bool
has_disc board disc p = inside p && holds (cell board p.0 p.1) disc

-- The loop of `_flips` along a direction, with the path so far: the path, and the cell it ends at.
pub walk : ℕ → Board → Player → Delta × Delta → Option Cell → List Cell → List Cell × Option Cell
walk fuel board opponent d none path = (path, none)
walk zero board opponent d (some p) path = (path, some p)
walk (suc fuel) board opponent d (some p) path =
    let rest = walk fuel board opponent d (neighbor p d) (path ++ p ∷ []) in
    if has_disc board opponent p then rest else (path, some p)

abbrev pub ends_with : Board → Player → Option Cell → Bool
ends_with board disc none = false
ends_with board disc (some p) = has_disc board disc p

abbrev pub is_path : List Cell → Bool
is_path [] = false
is_path (p ∷ ps) = true

-- A path of the opponent's discs that ends with one of the player's.
abbrev pub flipped : Board → Player → List Cell × Option Cell → List Cell
flipped board disc w = if is_path w.0 && ends_with board disc w.1 then w.0 else []

pub flips_along : Board → Cell → Player → List (Delta × Delta) → List Cell
unfolding walk
flips_along board p disc [] = []
flips_along board p disc (d ∷ ds) =
    flipped board disc (walk size board (other disc) d (neighbor p d) [])
    ++ flips_along board p disc ds

-- `_flips`
unfoldable pub flips : Board → Cell → Player → List Cell
unfolding flips_along
flips board p disc =
    if not (inside p) || is_some (cell board p.0 p.1)
    then []
    else flips_along board p disc directions

pub row_placements : Board → Player → ℕ → List ℕ → List Cell
unfolding flips
row_placements board disc row [] = []
row_placements board disc row (col ∷ cols) =
    let rest = row_placements board disc row cols in
    if is_path (flips board (row, col) disc) then (row, col) ∷ rest else rest

pub placements_in : Board → Player → List ℕ → List Cell
unfolding row_placements
placements_in board disc [] = []
placements_in board disc (row ∷ rows) =
    row_placements board disc row (range size) ++ placements_in board disc rows

-- `_legal_actions`, as cells
unfoldable pub placements : Board → Player → List Cell
unfolding placements_in
placements board disc = placements_in board disc (range size)

abbrev pub pair_action : Cell → Json
pair_action p = arr (cons (nat_action p.0) (cons (nat_action p.1) nil))

abbrev pub pass : Json
pass = str "pass"

-- `_has_any_legal_move`
abbrev pub has_any_legal_move : Board → Bool
has_any_legal_move board =
    is_path (placements board player_1) || is_path (placements board player_2)

abbrev pub is_finished : Board → Bool
is_finished board = board_full board || not (has_any_legal_move board)

abbrev pub count_discs : Board → Player → ℕ
count_discs board disc = sum (map (λ row. count_if (λ c. holds c disc) row) board)

-- `_final_outcome`
abbrev pub final_outcome : Board → Outcome (BySeat ℕ)
final_outcome board =
    let black = count_discs board player_1 in
    let white = count_discs board player_2 in
    record {
      winner =
          if ltb white black
          then some player_1
          else if ltb black white
          then some player_2
          else none;
      reason = "finished";
      extra = some (record { first = black; second = white });
    }

-- `_outcome`
abbrev pub outcome_of : Board → Option (Outcome (BySeat ℕ))
outcome_of board = if is_finished board then some (final_outcome board) else none

abbrev pub or_pass : List Json → List Json
or_pass [] = pass ∷ []
or_pass (a ∷ rest) = a ∷ rest

-- `_state`
unfoldable pub make_state : Board → ℕ → Player → ℤ → Option (Outcome (BySeat ℕ)) → OthelloState
unfolding placements win_scores
make_state board turn active seed given =
    let outcome =
      if is_none given && is_finished board then some (final_outcome board) else given in
    record {
      turn = turn;
      active_player = active;
      public_state = board;
      legal_actions_by_player =
          only_for active
            (if is_some outcome then [] else or_pass (map pair_action (placements board active)));
      scores = win_scores outcome;
      terminal = is_some outcome;
      outcome = outcome;
      seed = seed;
      forfeited = none;
    }

abbrev pub opening_board : Board
opening_board =
    place
      (place (place (place (replicate size (replicate size none)) 3 3 player_2) 3 4 player_1) 4 3
        player_1)
      4 4 player_2

unfoldable pub initial_state : ℤ → OthelloState
unfolding make_state
initial_state seed = make_state opening_board 0 player_1 seed none

-- for flip_row, flip_col in flips: board[flip_row][flip_col] = disc
abbrev pub place_all : Board → List Cell → Player → Board
place_all board [] disc = board
place_all board (p ∷ ps) disc = place_all (place board p.0 p.1 disc) ps disc

-- The board after a placement; `none` where it flips nothing.
unfoldable pub placed : Board → Player → Cell → Option Board
unfolding flips
placed board disc p =
    let taken = flips board p disc in
    if is_path taken then some (place_all (place board p.0 p.1 disc) taken disc) else none

-- `_action_pair`, of an action that is listed; a negative coordinate is on no list.
abbrev pub action_pair : Json → Option Cell
action_pair (arr (cons (int (pos row)) (cons (int (pos col)) nil))) = some (row, col)
action_pair _ = none

-- action != "pass"
abbrev pub is_pass : Json → Bool
is_pass (str s) = str_eq s "pass"
is_pass _ = false

unfoldable pub next_board : Board → Player → Json → Option Board
unfolding placed
next_board board disc action =
    if is_pass action then some board else action_pair action >>= λ p. placed board disc p

-- The end of `apply_action`, from the board.
unfoldable pub settle : OthelloState → Player → Board → OthelloState
unfolding make_state
settle s player board = make_state board (s.turn + 1) (other player) s.seed (outcome_of board)

-- `apply_action`; `none` where it raises ValueError.
unfoldable pub apply_action : OthelloState → Player → Json → Option OthelloState
unfolding next_board settle
apply_action s player action =
    if is_legal s player action
    then (next_board s.public_state player action >>= λ board. some (settle s player board))
    else none

unfoldable pub othello_rules : Rules Board (BySeat ℕ)
othello_rules = record {
  initial_state = initial_state;
  apply_action = apply_action;
  max_turns = max_turns;
  is_pending = λ _. false;
}
