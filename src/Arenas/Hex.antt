-- ===== src/Arenas/Hex.antt =====
-- Hex: src/eslams/arenas/hex.py, over `Stones`.
pub mod Play
pub mod Search
pub mod Complete
pub mod Fuel
mod Examples
use e_slams.Prelude.{
  Bool, List, Option, [], any, false, if◌then◌else◌, ltb, map, none, not, range, some, suc, true,
  zero, ℕ, ◌&&◌, ◌*◌, ◌++◌, ◌+◌, ◌-◌, ◌==◌, ◌∷◌,
}
use e_slams.Prelude.Int.{ℤ}
use e_slams.Json.{Json}
use e_slams.Arena.{Outcome, Player, player_1, player_2}
use e_slams.Arena.Contract.{Rules}
use e_slams.Arenas.Stones.{
  Board, Cell, Delta, State, apply_action, back, cell, holds, initial_state, make_state, neighbor,
  on, stay,
}

abbrev pub size : ℕ
size = 11

abbrev pub neighbors : List (Delta × Delta)
neighbors = (back, stay) ∷ (back, on) ∷ (stay, back) ∷ (stay, on) ∷ (on, back) ∷ (on, stay) ∷ []

abbrev pub same_cell : Cell → Cell → Bool
same_cell p q = p.0 == q.0 && p.1 == q.1

-- p in seen
abbrev pub seen_in : Cell → List Cell → Bool
seen_in p seen = any (λ q. same_cell q p) seen

-- On the board, with the stone.
abbrev pub has_stone : Board → Player → Cell → Bool
has_stone board stone p = ltb p.0 size && ltb p.1 size && holds (cell board p.0 p.1) stone

-- The queue and the set of cells seen.
pub record Frontier : Type 0 where
  pub queue : List Cell
  pub seen : List Cell

abbrev pub visit : Board → Player → Frontier → Option Cell → Frontier
visit board stone f none = f
visit board stone f (some q) =
    if not (seen_in q f.seen) && has_stone board stone q
    then record { queue = f.queue ++ q ∷ []; seen = q ∷ f.seen }
    else f

-- The loop over the neighbours of a cell.
pub visit_all : Board → Player → Cell → List (Delta × Delta) → Frontier → Frontier
visit_all board stone p [] f = f
visit_all board stone p (d ∷ ds) f = visit_all board stone p ds (visit board stone f (neighbor p d))

-- `_reaches_target`
abbrev pub reaches_target : Player → Cell → Bool
reaches_target player_1 p = p.0 == size - 1
reaches_target player_2 p = p.1 == size - 1

-- The loop of `_connected` over the queue; `none` where the fuel does not do.
pub search : ℕ → Board → Player → List Cell → List Cell → Option Bool
unfolding visit_all
search zero board stone queue seen = none
search (suc fuel) board stone [] seen = some false
search (suc fuel) board stone (p ∷ queue) seen =
    let f = visit_all board stone p neighbors (record { queue = queue; seen = seen }) in
    let rest = search fuel board stone f.queue f.seen in
    if reaches_target stone p then some true else rest

-- The edge that a seat starts from: the top row, or the first column.
abbrev pub edge_cell : Player → ℕ → Cell
edge_cell player_1 i = (0, i)
edge_cell player_2 i = (i, 0)

abbrev pub stones_of : Board → Player → List Cell → List Cell
stones_of board stone [] = []
stones_of board stone (p ∷ ps) =
    let rest = stones_of board stone ps in
    if holds (cell board p.0 p.1) stone then p ∷ rest else rest

abbrev pub edge_stones : Board → Player → List Cell
edge_stones board stone = stones_of board stone (map (edge_cell stone) (range size))

-- `_connected`: every cell of the board is queued at most once after those of the edge.
unfoldable pub connected : Board → Player → Option Bool
unfolding search
connected board stone =
    search (size * size + size + 1) board stone (edge_stones board stone) (edge_stones board stone)

abbrev pub is_connected : Option Bool → Bool
is_connected (some b) = b
is_connected none = false

-- `_connected` does not look at the cell that was played.
abbrev pub hex_wins : Board → ℕ → ℕ → Player → Bool
hex_wins board row col stone = is_connected (connected board stone)

-- `_state` of Hex, where `Stones` has that of both games.
unfoldable pub hex_state : Board → ℕ → Player → ℤ → Option (Outcome Unit) → State
unfolding connected
hex_state = make_state size hex_wins "connected_sides" "max_turns"

unfoldable pub hex_initial_state : ℤ → State
unfolding connected
hex_initial_state = initial_state size hex_wins "connected_sides" "max_turns"

unfoldable pub apply_hex_action : State → Player → Json → Option State
unfolding connected
apply_hex_action = apply_action size hex_wins "connected_sides" "max_turns"

unfoldable pub hex_rules : Rules Board Unit
unfolding hex_initial_state apply_hex_action
hex_rules = record {
  initial_state = hex_initial_state;
  apply_action = apply_hex_action;
  max_turns = size * size;
  is_pending = λ _. false;
}
