-- ===== src/Arenas/Gomoku/Play.antt =====
-- Gomoku keeps the contract of an arena.
use e_slams.Prelude.{if◌then◌else◌}
use e_slams.Arenas.Stones.Free.{IsEmptyCell}
use e_slams.Arena.Legality.{IsNumber}
use e_slams.Arena.{ScoresSum}
use e_slams.Arena.Contract.{IsArena, Offers, Reachable}
use e_slams.Arenas.Stones.{State}
use e_slams.Arenas.Stones.Contract.{reachable-IsMade, stones-IsArena, stones-Offers}
use e_slams.Arenas.Gomoku.{gomoku_rules, has_line, size}

-- Gomoku is an arena: the first turn is 0 and each move adds one, exactly the legal actions apply,
-- and a game that is not over can go on. In the states that legal play reaches, the legal actions
-- are the numbers, row by row, of the empty cells of the board and no others, for the seat that
-- moves, until the game is over.
pub gomoku-IsArena : IsArena gomoku_rules × Offers gomoku_rules (IsNumber (IsEmptyCell size))
unfolding gomoku_rules
gomoku-IsArena = (
  stones-IsArena size has_line "five_in_a_row" "draw",
  stones-Offers size has_line "five_in_a_row" "draw",
)

-- In every state that legal play of Gomoku reaches, the scores add up to one when the game is over,
-- and to nothing while it is on.
pub scores-gomoku :
    (s : State) → Reachable gomoku_rules s → ScoresSum (if s.terminal then 1 else 0) s.scores
unfolding gomoku_rules
scores-gomoku s r = (reachable-IsMade size has_line "five_in_a_row" "draw" s r).scored
