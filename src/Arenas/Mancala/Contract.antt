-- ===== src/Arenas/Mancala/Contract.antt =====
-- Kalah keeps the contract of an arena, ends, and divides the score of a finished game.
use e_slams.Prelude.{
  Bool-cases, Option, arith, false, if◌then◌else◌, inl, inr, is_some, ltb, none, refl, some, subst,
  sum, true, ℕ, ◌+◌, ◌<◌, ◌∷◌, ◌≡◌, ◌≢◌,
}
use e_slams.Json.{Json}
use e_slams.Arena.{
  BySeat, Outcome, Player, ScoresSum, at_seat, failure_action, is_legal, nat_action, player_1,
  player_2,
}
use e_slams.Arena.Contract.{IsArena, Reachable}
use e_slams.Arena.Legality.{IsSeated, listed_legal, seated_failure, winner_scores-sum}
use e_slams.Arenas.Mancala.{
  Board, State, apply_action, initial_state, make_state, rules, scores, settle, share,
}
use e_slams.Arenas.Mancala.Legal.{
  IsSound, apply_action-next, legal_pit, mancala-IsSound, stocked_cons,
}
use e_slams.Prelude.Int.{ℤ}

turn-initial_state : (seed : ℤ) → (initial_state seed).turn ≡ 0
unfolding initial_state make_state
turn-initial_state seed = refl

turn-settle : (s : State) (r : Player × Board) → (settle s r).turn ≡ s.turn + 1
unfolding settle make_state
turn-settle s (active, b) = ground arith

legal_pit_applies :
    (s : State) (player : Player) (action : Json)
    → IsSound s
    → is_legal s player action ≡ true
    → apply_action s player action ≢ none
unfolding apply_action
legal_pit_applies s player action sound legal =
    let (_, _, _, _, z) = legal_pit s player action sound legal in rw (z, legal) (λ e. cc)

sum-row :
    (b : Board) (p : Player)
    → 0 < sum b.pits.first
    → 0 < sum b.pits.second
    → 0 < sum (at_seat b.pits p)
sum-row b player_1 h k = h
sum-row b player_2 h k = k

pit_to_move :
    (s : State)
    → IsSound s
    → s.terminal ≡ false
    → (action : Json) × (failure_action s s.active_player ≡ some action)
      × (is_legal s s.active_player action ≡ true)
pit_to_move s sound going =
    let row = at_seat s.public_state.pits s.active_player in
    let (h, k) = sound.stocked_sides going in
    let (n, rest, e) = stocked_cons 0 row (sum-row s.public_state s.active_player h k) in
    let seated : IsSeated s (n ∷ rest) = subst (λ cells. IsSeated s cells) e sound.made.seated in
    (
      nat_action n,
      seated_failure s n rest seated going,
      listed_legal s (n ∷ rest) n seated going (ground arith),
    )

-- Kalah is an arena: turns count moves, the listed pits and no others can be played, and a game
-- that is not over can go on.
pub mancala-IsArena : IsArena rules
unfolding rules
mancala-IsArena = record {
  first_turn = turn-initial_state;
  next_turn = λ s t player action h.
      let (_, e) = apply_action-next s t player action h in rw e (turn-settle s _);
  legal_applies =
      λ s player action r legal. legal_pit_applies s player action (mancala-IsSound s r) legal;
  applies_legal = λ s t player action r h.
      let (legal, _) = apply_action-next s t player action h in
      let (q, over, _, _, _) = legal_pit s player action (mancala-IsSound s r) legal in
      (legal, q, over);
  can_move = λ s r going. pit_to_move s (mancala-IsSound s r) going;
}

share-sum : (w : Option Player) (stores : Option (BySeat ℕ)) → ScoresSum 1 (share w stores)
unfolding share
share-sum w none = winner_scores-sum w
share-sum w (some stores) = elim (Bool-cases (ltb 0 (stores.first + stores.second))) [
  | inl e ↦ rw e (grind arith)
  | inr e ↦ rw e (winner_scores-sum w)
]

scores-sum : (o : Option (Outcome (BySeat ℕ))) → ScoresSum (if is_some o then 1 else 0) (scores o)
scores-sum none = unfold scores in refl
scores-sum (some o) = unfold scores in share-sum o.winner o.extra

-- The two scores of a game that is over add up to one, and those of a game that is on to nothing.
pub scores-mancala :
    (s : State) → Reachable rules s → ScoresSum (if s.terminal then 1 else 0) s.scores
scores-mancala s r =
    let made = (mancala-IsSound s r).made in rw (made.scored, made.over) (scores-sum s.outcome)
