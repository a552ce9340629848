-- ===== src/Arenas/Othello/Contract.antt =====
-- Othello keeps the contract of an arena.
use mathlib.Core.List.{head?}
use e_slams.Prelude.{
  List, Option-cases, [], any, false, inl, inr, map, none, refl, some, true, ◌+◌, ◌∷◌, ◌≡◌, ◌≢◌,
}
use e_slams.Json.{Json, same_json_action}
use e_slams.Arena.{Player, at_seat, failure_action, is_legal, is_resign}
use e_slams.Arena.Legality.{listed, only_for_self}
use e_slams.Arenas.Othello.{
  OthelloState, apply_action, initial_state, make_state, next_board, or_pass, othello_rules,
  pair_action, pass, placed, placements, settle,
}
use e_slams.Arenas.Othello.Legal.{IsListed, Move, legal-Move, pair_action_self, passes, places}
use e_slams.Arenas.Othello.Length.{IsMade, apply_action-next, reachable-IsMade}
use e_slams.Arenas.Stones.{Board, Cell}
use e_slams.Arena.Contract.{IsArena, Offers}
use e_slams.Arenas.Othello.Playable.{IsPlayable, IsPlayable-listed, Move-IsPlayable}

turn-settle :
    (s : OthelloState) (player : Player) (board : Board) → (settle s player board).turn ≡ s.turn + 1
unfolding settle make_state
turn-settle s player board = refl

-- Every move has a board.
Move-applies :
    (board : Board) (disc : Player) (a : Json) → Move board disc a → next_board board disc a ≢ none
unfolding next_board placed
Move-applies board disc a (passes none_listed) = λ e. cc
Move-applies board disc a (places p flip) = rw flip (λ e. cc)

legal_applies :
    (s : OthelloState) (player : Player) (a : Json)
    → IsMade s
    → is_legal s player a ≡ true
    → apply_action s player a ≢ none
unfolding apply_action
legal_applies s player a m legal =
    let (seat, going, move) = legal-Move s player a m.listed legal in
    elim (Option-cases (next_board s.public_state s.active_player a)) [
      | inl q ↦ absurd (Move-applies s.public_state s.active_player a move q)
      | inr (board, q) ↦
          let q' : next_board s.public_state player a ≡ some board = rw seat q in
          rw (legal, q') (λ e. cc)
    ]

no_resign : (ps : List Cell) → any is_resign (or_pass (map pair_action ps)) ≡ false
unfolding is_resign
no_resign [] = refl
no_resign (p ∷ ps) = pairs ps
  where
    pairs : (ps : List Cell) → any is_resign (map pair_action ps) ≡ false
    pairs [] = refl
    pairs (p ∷ ps) = pairs ps

pass_self : same_json_action pass pass ≡ true
unfolding same_json_action
pass_self = refl

-- The first of the listed actions.
first_listed :
    (ps : List Cell)
    → (a : Json) × (head? (or_pass (map pair_action ps)) ≡ some a)
      × (any (λ c. same_json_action a c) (or_pass (map pair_action ps)) ≡ true)
first_listed [] = let self = pass_self in (pass, refl, rw self refl)
first_listed (p ∷ ps) = let self = pair_action_self p in (pair_action p, refl, rw self refl)

own_actions :
    (s : OthelloState)
    → IsListed s
    → s.terminal ≡ false
    → at_seat s.legal_actions_by_player s.active_player
      ≡ or_pass (map pair_action (placements s.public_state s.active_player))
own_actions s listed going = rw (listed, going) (only_for_self s.active_player _)

can_move :
    (s : OthelloState)
    → IsListed s
    → s.terminal ≡ false
    → (action : Json) × (failure_action s s.active_player ≡ some action)
      × (is_legal s s.active_player action ≡ true)
unfolding failure_action is_legal
can_move s listed going =
    let ps = placements s.public_state s.active_player in
    let own = own_actions s listed going in
    let (a, first, found) = first_listed ps in
    let none_resigns = no_resign ps in (a, rw own (rw none_resigns first), rw own found)

arena : IsArena othello_rules
unfolding othello_rules initial_state make_state
arena = record {
  first_turn = λ seed. refl;
  next_turn = λ s t player action h.
      let (_, (board, _, same)) = apply_action-next s t player action h in
      rw (← same) (turn-settle s player board);
  legal_applies =
      λ s player action r legal. legal_applies s player action (reachable-IsMade s r) legal;
  applies_legal = λ s t player action r h.
      let (legal, _) = apply_action-next s t player action h in
      let (seat, going, _) = legal-Move s player action (reachable-IsMade s r).listed legal in
      (legal, seat, going);
  can_move = λ s r going. can_move s (reachable-IsMade s r).listed going;
}

IsPlayable-legal :
    (s : OthelloState) (a : Json)
    → IsListed s
    → s.terminal ≡ false
    → IsPlayable s.public_state s.active_player a
    → is_legal s s.active_player a ≡ true
unfolding is_legal
IsPlayable-legal s a listed going can =
    let own = own_actions s listed going in
    rw own (IsPlayable-listed s.public_state s.active_player a can)

-- Othello is an arena: the first turn is 0 and each move adds one, exactly the legal actions apply,
-- and a game that is not over can go on. In the states that legal play reaches, the legal actions
-- are the placements that flip a disc, or the pass where no cell has one, and no others, for the
-- seat that moves, until the game is over.
pub othello-IsArena : IsArena othello_rules × Offers othello_rules IsPlayable
othello-IsArena = (
  arena,
  record {
    legal_iff = λ s player a r.
        let listed = (reachable-IsMade s r).listed in
        (
          λ h.
              let (seat, going, move) = legal-Move s player a listed h in
              (seat, going, rw seat (Move-IsPlayable s.public_state s.active_player a move)),
          λ h.
              let (seat, going, can) = h in
              rw seat (IsPlayable-legal s a listed going (rw seat at can)),
        );
  },
)
