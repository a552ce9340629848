-- ===== src/Arenas/Stones/Contract.antt =====
-- An arena of stones keeps the contract of an arena, whatever wins.
use e_slams.Prelude.{
  &&_split, Bool, Option, String, arith, false, guarded_some, if◌then◌else◌, is_none, is_some, leb,
  none, refl, replicate, some, subst, sym, true, ℕ, ◌%◌, ◌&&◌, ◌*◌, ◌+◌, ◌/◌, ◌||◌, ◌∷◌, ◌≡◌, ◌≢◌,
}
use e_slams.Prelude.Int.{ℤ}
use e_slams.Json.{Json}
use e_slams.Arena.{
  Outcome, Player, ScoresSum, as_index, failure_action, is_int, is_legal, nat_action, player_1,
  win_scores,
}
use e_slams.Arena.Contract.{IsArena, Offers, Reachable, opened, played}
use e_slams.Arena.Legality.{
  IsNumber, IsSeated, legal_listed, listed_legal, seated_failure, seated_iff, winner_scores-sum,
}
use e_slams.Arenas.Stones.{
  Board, State, apply_action, board_full, initial_state, legal_cells, make_state, rules, settle,
}
use e_slams.Arenas.Stones.Free.{IsEmptyCell, legal_cells_iff}
use e_slams.Arenas.Stones.Board.{IsSquare, empty-IsSquare, legal_cells-cons, place-IsSquare}

outcome-sum : (o : Option (Outcome Unit)) → ScoresSum (if is_some o then 1 else 0) (win_scores o)
outcome-sum none = unfold win_scores in refl
outcome-sum (some o) = unfold win_scores in winner_scores-sum o.winner

module _ (size : ℕ) (wins : Board → ℕ → ℕ → Player → Bool) (won drawn : String) where
  -- The shape of the states that `_state` makes.
  pub record IsMade (s : State) : Type 0 where
    pub seated : IsSeated s (legal_cells s.public_state size)
    pub scored : ScoresSum (if s.terminal then 1 else 0) s.scores
    pub square : IsSquare size s.public_state
    pub gap : s.terminal ≡ false → board_full s.public_state ≡ false

  -- A game that has no winner when it is over is a draw.
  shared :
      (given : Option (Outcome Unit)) (late full : Bool)
      → ScoresSum (if is_some given || late || full then 1 else 0) (
          win_scores (
            if is_none given && (is_some given || late || full)
            then some (record { winner = none; reason = drawn; extra = none })
            else given))
  shared (some o) late full = outcome-sum (some o)
  shared none true full =
      outcome-sum (some (record { winner = none; reason = drawn; extra = none }))
  shared none false true =
      outcome-sum (some (record { winner = none; reason = drawn; extra = none }))
  shared none false false = outcome-sum none

  make_state-IsMade :
      (board : Board) (turn : ℕ) (active : Player) (seed : ℤ) (given : Option (Outcome Unit))
      → IsSquare size board
      → IsMade (make_state size wins won drawn board turn active seed given)
  unfolding make_state
  make_state-IsMade board turn active seed given square = record {
    square = square;
    seated = refl;
    scored = shared given (leb (size * size) turn) (board_full board);
    gap = λ h. ground arith;
  }

  pub apply_action-next :
      (s t : State) (player : Player) (action : Json)
      → apply_action size wins won drawn s player action ≡ some t
      → (is_legal s player action ≡ true)
        × (t
            ≡ settle size wins won drawn s player (as_index action / size) (as_index action % size))
  unfolding apply_action
  apply_action-next s t player action h =
      let (legal, e) = guarded_some _ _ h in ((&&_split (is_int action) _ legal).1, sym e)

  pub reachable-IsMade : (s : State) → Reachable (rules size wins won drawn) s → IsMade s
  unfolding rules initial_state settle
  reachable-IsMade s (opened seed) =
      make_state-IsMade (replicate size (replicate size none)) 0 player_1 seed none
        (empty-IsSquare size)
  reachable-IsMade t (played {s = s} r player action h) =
      let (_, e) = apply_action-next s t player action h in
      rw e (
        make_state-IsMade _ _ _ _ _
          (place-IsSquare size s.public_state _ _ player (reachable-IsMade s r).square))

  turn-settle :
      (s : State) (player : Player) (row col : ℕ)
      → (settle size wins won drawn s player row col).turn ≡ s.turn + 1
  unfolding settle make_state
  turn-settle s player row col = refl

  legal_applies :
      (s : State) (player : Player) (action : Json)
      → IsMade s
      → is_legal s player action ≡ true
      → apply_action size wins won drawn s player action ≢ none
  unfolding apply_action
  legal_applies s player action made legal =
      let (_, _, _, _, z) = legal_listed s _ player action made.seated legal in
      rw (z, legal) (λ e. cc)

  cell_to_mark :
      (s : State)
      → IsMade s
      → s.terminal ≡ false
      → (action : Json) × (failure_action s s.active_player ≡ some action)
        × (is_legal s s.active_player action ≡ true)
  cell_to_mark s made going =
      let (n, rest, e) = legal_cells-cons size s.public_state made.square (made.gap going) in
      let seated : IsSeated s (n ∷ rest) = subst (IsSeated s) e made.seated in
      (
        nat_action n,
        seated_failure s n rest seated going,
        listed_legal s (n ∷ rest) n seated going (ground arith),
      )

  pub stones-Offers : Offers (rules size wins won drawn) (IsNumber (IsEmptyCell size))
  stones-Offers = record {
    legal_iff = λ s player action r.
        seated_iff (IsEmptyCell size) s (legal_cells s.public_state size) player action
          (reachable-IsMade s r).seated (legal_cells_iff s.public_state size);
  }

  pub stones-IsArena : IsArena (rules size wins won drawn)
  unfolding rules initial_state make_state
  stones-IsArena = record {
    first_turn = λ seed. refl;
    next_turn = λ s t player action h.
        let (_, e) = apply_action-next s t player action h in rw e (turn-settle s player _ _);
    legal_applies =
        λ s player action r legal. legal_applies s player action (reachable-IsMade s r) legal;
    applies_legal = λ s t player action r h.
        let (legal, _) = apply_action-next s t player action h in
        let (q, over, _, _, _) =
          legal_listed s _ player action (reachable-IsMade s r).seated legal in
        (legal, q, over);
    can_move = λ s r going. cell_to_mark s (reachable-IsMade s r) going;
  }
