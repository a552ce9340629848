-- ===== src/Arenas/Hex/Examples.antt =====
-- Boards of Hex.
use e_slams.Prelude.{arith, false, none, refl, replicate, some, true, ◌↔◌, ◌∷◌, ◌≡◌, ◌⊎◌}
use e_slams.Arena.{nat_action, player_1, player_2}
use e_slams.Arenas.Stones.Free.{legal_cells_iff}
use e_slams.Prelude.Int.{pos}
use e_slams.Arena.Legality.{listed_legal}
use e_slams.Arenas.Stones.{Board, State, apply_action, cell, legal_cells, make_state, settle}
use e_slams.Arenas.Hex.{apply_hex_action, connected, hex_state, hex_wins, size}
use e_slams.Arenas.Hex.Search.{Joined}
use e_slams.Arenas.Hex.Play.{hex_winner-Joined, winner_of}
use e_slams.Arenas.Hex.Complete.{connected_lem}

-- The first column is the first seat's.
abbrev column : Board
column = replicate 11 (some player_1 ∷ replicate 10 none)

column_wins : connected column player_1 ≡ some true
unfolding connected
column_wins = refl

column_loses : connected column player_2 ≡ some false
unfolding connected
column_loses = refl

connected_lem_example :
    ((connected column player_1 ≡ some true) × Joined column player_1)
    ⊎ ((connected column player_1 ≡ some false) × (¬ Joined column player_1))
connected_lem_example = connected_lem column player_1

-- The first seat plays the first cell.
abbrev start : Board → State
start board = hex_state board 20 player_1 (pos 1) none

abbrev next : Board → State
next board = settle size hex_wins "connected_sides" "max_turns" (start board) player_1 0 0

start-applies :
    (board : Board)
    → cell board 0 0 ≡ none
    → (start board).terminal ≡ false
    → apply_hex_action (start board) player_1 (nat_action 0) ≡ some (next board)
unfolding apply_hex_action apply_action hex_state make_state
start-applies board free going =
    let listed = (legal_cells_iff board size 0).1 (0, 0, refl, omega arith, omega arith, free) in
    let legal = listed_legal (start board) (legal_cells board size) 0 refl going listed in
    rw legal refl

-- The first column but for its first cell.
abbrev almost : Board
almost = replicate 11 none ∷ replicate 10 (some player_1 ∷ replicate 10 none)

almost_going : (start almost).terminal ≡ false
unfolding hex_state make_state
almost_going = refl

hex_winner-Joined_example :
    (winner_of (next almost).outcome ≡ some player_1) ↔ Joined (next almost).public_state player_1
hex_winner-Joined_example =
    hex_winner-Joined (start almost) (next almost) player_1 (nat_action 0)
      (start-applies almost refl almost_going)
