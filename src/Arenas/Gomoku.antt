-- ===== src/Arenas/Gomoku.antt =====
-- Gomoku: src/eslams/arenas/gomoku.py, over `Stones`.
pub mod Lines
pub mod Play
mod Examples
use e_slams.Prelude.{
  Bool, List, Option, [], any, if◌then◌else◌, leb, ltb, none, some, suc, zero, ℕ, ◌&&◌, ◌+◌, ◌∷◌,
}
use e_slams.Arena.{Player}
use e_slams.Arena.Contract.{Rules}
use e_slams.Arenas.Stones.{Board, Delta, back, cell, holds, on, rules, stay, step}

abbrev pub size : ℕ
size = 15

abbrev pub target : ℕ
target = 5

-- -dr
abbrev pub opposite : Delta → Delta
opposite back = on
opposite stay = stay
opposite on = back

-- The cell one step along holds the stone; the coordinates of that cell.
abbrev pub next_stone : Board → Player → Option ℕ → Option ℕ → Option (ℕ × ℕ)
next_stone board stone (some row) (some col) =
    if ltb row size && ltb col size && holds (cell board row col) stone
    then some (row, col)
    else none
next_stone board stone _ _ = none

-- The loop of `_count`; `fuel` bounds its turns.
pub count_from : ℕ → Board → ℕ → ℕ → Delta → Delta → Player → ℕ
count_from zero board row col dr dc stone = 0
count_from (suc fuel) board row col dr dc stone =
    elim (next_stone board stone (step dr row) (step dc col)) as (λ _. ℕ) [
      | none ↦ 0
      | some at ↦ suc (count_from fuel board at.0 at.1 dr dc stone)
    ]

-- `_count`: no line of stones is longer than the board.
unfoldable pub count_line : Board → ℕ → ℕ → Delta → Delta → Player → ℕ
unfolding count_from
count_line board row col dr dc stone = count_from size board row col dr dc stone

abbrev pub directions : List (Delta × Delta)
directions = (on, stay) ∷ (stay, on) ∷ (on, on) ∷ (on, back) ∷ []

-- `_has_line`
unfoldable pub has_line : Board → ℕ → ℕ → Player → Bool
unfolding count_line
has_line board row col stone =
    any
      (λ d. leb target (
        1
        + count_line board row col d.0 d.1 stone
        + count_line board row col (opposite d.0) (opposite d.1) stone))
      directions

unfoldable pub gomoku_rules : Rules Board Unit
unfolding has_line
gomoku_rules = rules size has_line "five_in_a_row" "draw"
