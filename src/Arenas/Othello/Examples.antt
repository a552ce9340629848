-- ===== src/Arenas/Othello/Examples.antt =====
-- Games of Othello.
use e_slams.Prelude.{All, [], false, refl, some, ◌+◌, ◌<◌, ◌∷◌, ◌≡◌}
use e_slams.Prelude.Int.{pos}
use e_slams.Arena.{player_1, player_2}
use e_slams.Arena.Contract.{opened}
use e_slams.Arenas.Othello.{
  OthelloState, directions, flips, has_disc, initial_state, make_state, max_turns, opening_board,
  othello_rules, placed, placements, size, walk,
}
use e_slams.Arenas.Othello.Walk.{flips-end}
use e_slams.Arenas.Othello.Discs.{discs, discs-placed}
use e_slams.Arenas.Othello.Length.{opening-IsSquare, othello-ends}
use e_slams.Arenas.Stones.{Board, Cell, neighbor, place}
use e_slams.Arenas.Stones.Board.{IsSquare}

first_moves : placements opening_board player_1 ≡ (2, 3) ∷ (3, 2) ∷ (4, 5) ∷ (5, 4) ∷ []
unfolding placements
first_moves = refl

abbrev after_first : Board
after_first = place (place opening_board 2 3 player_1) 3 3 player_1

discs-placed_example : (discs after_first ≡ discs opening_board + 1) × IsSquare 8 after_first
unfolding placed flips
discs-placed_example = discs-placed opening_board after_first (2, 3) player_1 opening-IsSquare refl

abbrev opening : OthelloState
opening = initial_state (pos 7)

othello-ends_example : opening.turn < max_turns
unfolding othello_rules initial_state make_state placements
othello-ends_example = othello-ends opening (opened (pos 7)) refl

flips-end_example :
    All
      (λ d.
        (q : Cell)
        → (walk size opening_board player_2 d (neighbor (2, 3) d) []).1 ≡ some q
        → has_disc opening_board player_2 q ≡ false)
      directions
flips-end_example = flips-end opening_board (2, 3) player_2
