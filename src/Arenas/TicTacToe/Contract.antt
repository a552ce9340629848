-- ===== src/Arenas/TicTacToe/Contract.antt =====
-- Tic-tac-toe keeps the contract of an arena.
use e_slams.Prelude.{
  &&_split, ==_iff, Bool, List, Option, [], all, arith, false, get_elem?, guarded_some,
  if◌then◌else◌, inl, inr, is_none, is_some, leb, none, refl, replicate, set, some, subst, suc, sym,
  true, zero, ||_split, ℕ, ◌&&◌, ◌+◌, ◌==◌, ◌||◌, ◌↔◌, ◌∷◌, ◌≡◌, ◌≢◌,
}
use e_slams.Json.{Json}
use e_slams.Arena.{
  Outcome, Player, ScoresSum, as_index, failure_action, is_int, is_legal, nat_action, player_1,
  win_scores,
}
use e_slams.Arena.Contract.{IsArena, Offers, Reachable, opened, played}
use e_slams.Arena.Legality.{
  IsNumber, IsSeated, legal_listed, listed, listed_legal, seated_failure, seated_iff,
  winner_scores-sum,
}
use e_slams.Arenas.TicTacToe.{
  Board, State, apply_action, empty_cells, initial_state, make_state, rules, settle,
}
use e_slams.Prelude.Int.{ℤ}

-- The shape of the states that `_state` makes.
record IsMade (s : State) : Type 0 where
  seated : IsSeated s (empty_cells 0 s.public_state)
  scored : ScoresSum (if s.terminal then 1 else 0) s.scores
  gap : s.terminal ≡ false → all is_some s.public_state ≡ false

outcome-sum : (o : Option (Outcome Unit)) → ScoresSum (if is_some o then 1 else 0) (win_scores o)
outcome-sum none = unfold win_scores in refl
outcome-sum (some o) = unfold win_scores in winner_scores-sum o.winner

-- A game that has no winner when it is over is a draw.
shared :
    (given : Option (Outcome Unit)) (late full : Bool)
    → ScoresSum (if is_some given || late || full then 1 else 0) (
        win_scores (
          if is_none given && (is_some given || late || full)
          then some (record { winner = none; reason = "draw"; extra = none })
          else given))
shared (some o) late full = outcome-sum (some o)
shared none true full = outcome-sum (some (record { winner = none; reason = "draw"; extra = none }))
shared none false true =
    outcome-sum (some (record { winner = none; reason = "draw"; extra = none }))
shared none false false = outcome-sum none

make_state-IsMade :
    (board : Board) (turn : ℕ) (active : Player) (seed : ℤ) (given : Option (Outcome Unit))
    → IsMade (make_state board turn active seed given)
unfolding make_state
make_state-IsMade board turn active seed given = record {
  seated = refl;
  scored = shared given (leb 9 turn) (all is_some board);
  gap = λ h. ground arith;
}

empty_cells-cons :
    (k : ℕ) (board : Board)
    → all is_some board ≡ false
    → (n : ℕ) × (rest : List ℕ) × (empty_cells k board ≡ n ∷ rest)
unfolding empty_cells
empty_cells-cons k [] h = absurd cc
empty_cells-cons k (none ∷ board) h = (k, empty_cells (k + 1) board, refl)
empty_cells-cons k (some p ∷ board) h = empty_cells-cons (k + 1) board h

-- A square that is on the board, and that no one has claimed.
abbrev pub IsFree : Board → ℕ → Type 0
IsFree board n = get_elem? board n ≡ some none

listed-empty_cells :
    (k n : ℕ) (board : Board)
    → listed n (empty_cells k board) ≡ true
    → (i : ℕ) × (n ≡ k + i) × IsFree board i
unfolding empty_cells
listed-empty_cells k n [] h = absurd cc
listed-empty_cells k n (none ∷ board) h = elim (||_split (n == k) _ h) [
  | inl e ↦ let same = (==_iff n k).0 e in (0, omega arith, refl)
  | inr later ↦
      let (i, same, free) = listed-empty_cells (k + 1) n board later in (suc i, omega arith, free)
]
listed-empty_cells k n (some p ∷ board) h =
    let (i, same, free) = listed-empty_cells (k + 1) n board h in (suc i, omega arith, free)

empty_cells-listed :
    (k n i : ℕ) (board : Board) → n ≡ k + i → IsFree board i → listed n (empty_cells k board) ≡ true
unfolding empty_cells
empty_cells-listed k n i [] same free = absurd cc
empty_cells-listed k n zero (none ∷ board) same free =
    let here : (n == k) ≡ true = (==_iff n k).1 (omega arith) in rw here refl
empty_cells-listed k n zero (some p ∷ board) same free = absurd cc
empty_cells-listed k n (suc i) (none ∷ board) same free =
    let rest = empty_cells-listed (k + 1) n i board (omega arith) free in ground arith
empty_cells-listed k n (suc i) (some p ∷ board) same free =
    empty_cells-listed (k + 1) n i board (omega arith) free

empty_cells_iff : (board : Board) (n : ℕ) → (listed n (empty_cells 0 board) ≡ true) ↔ IsFree board n
empty_cells_iff board n = (
  λ h.
      let (i, same, free) = listed-empty_cells 0 n board h in
      subst (IsFree board) (let back : i ≡ n = omega arith in back) free,
  λ free. empty_cells-listed 0 n n board (omega arith) free,
)

apply_action-next :
    (s t : State) (player : Player) (action : Json)
    → apply_action s player action ≡ some t
    → (is_legal s player action ≡ true)
      × (t ≡ settle s player (set s.public_state (as_index action) (some player)))
unfolding apply_action
apply_action-next s t player action h =
    let (legal, e) = guarded_some _ _ h in ((&&_split (is_int action) _ legal).1, sym e)

reachable-IsMade : (s : State) → Reachable rules s → IsMade s
unfolding rules initial_state settle
reachable-IsMade s (opened seed) = make_state-IsMade (replicate 9 none) 0 player_1 seed none
reachable-IsMade t (played {s = s} r player action h) =
    let (_, e) = apply_action-next s t player action h in rw e (make_state-IsMade _ _ _ _ _)

turn-settle :
    (s : State) (player : Player) (board : Board) → (settle s player board).turn ≡ s.turn + 1
unfolding settle make_state
turn-settle s player board = refl

legal_applies :
    (s : State) (player : Player) (action : Json)
    → IsMade s
    → is_legal s player action ≡ true
    → apply_action s player action ≢ none
unfolding apply_action
legal_applies s player action made legal =
    let (_, _, _, _, z) = legal_listed s _ player action made.seated legal in
    rw (z, legal) (λ e. cc)

cell_to_mark :
    (s : State)
    → IsMade s
    → s.terminal ≡ false
    → (action : Json) × (failure_action s s.active_player ≡ some action)
      × (is_legal s s.active_player action ≡ true)
cell_to_mark s made going =
    let (n, rest, e) = empty_cells-cons 0 s.public_state (made.gap going) in
    let seated : IsSeated s (n ∷ rest) = subst (IsSeated s) e made.seated in
    (
      nat_action n,
      seated_failure s n rest seated going,
      listed_legal s (n ∷ rest) n seated going (ground arith),
    )

arena : IsArena rules
unfolding rules initial_state
arena = record {
  first_turn = λ seed. refl;
  next_turn = λ s t player action h.
      let (_, e) = apply_action-next s t player action h in rw e (turn-settle s player _);
  legal_applies =
      λ s player action r legal. legal_applies s player action (reachable-IsMade s r) legal;
  applies_legal = λ s t player action r h.
      let (legal, _) = apply_action-next s t player action h in
      let (q, over, _, _, _) = legal_listed s _ player action (reachable-IsMade s r).seated legal in
      (legal, q, over);
  can_move = λ s r going. cell_to_mark s (reachable-IsMade s r) going;
}

-- Tic-tac-toe is an arena: the first turn is 0 and each move adds one, exactly the legal actions
-- apply, and a game that is not over can go on. In the states that legal play reaches, the legal
-- actions are the unclaimed squares of the board and no others, for the seat that moves, until the
-- game is over.
pub tic_tac_toe-IsArena : IsArena rules × Offers rules (IsNumber IsFree)
tic_tac_toe-IsArena = (
  arena,
  record {
    legal_iff = λ s player action r.
        seated_iff IsFree s (empty_cells 0 s.public_state) player action
          (reachable-IsMade s r).seated (empty_cells_iff s.public_state);
  },
)

-- In every state that legal play of tic-tac-toe reaches, the scores add up to one when the game is
-- over, and to nothing while it is on.
pub scores-tic_tac_toe :
    (s : State) → Reachable rules s → ScoresSum (if s.terminal then 1 else 0) s.scores
scores-tic_tac_toe s r = (reachable-IsMade s r).scored
