-- ===== src/Arenas/ConnectFour/Contract.antt =====
-- Connect Four keeps the contract of an arena.
use e_slams.Prelude.{
  &&_split, ==_iff, Bool, Bool-cases, List, Option, [], all, arith, false, get_or, guarded_some,
  if◌then◌else◌, inl, inr, is_none, is_none_iff, is_some, leb, length, length-set, none, range,
  range_from, refl, replicate, some, subst, suc, sym, true, zero, ||_split, ℕ, ◌&&◌, ◌*◌, ◌+◌, ◌<◌,
  ◌==◌, ◌||◌, ◌↔◌, ◌∙◌, ◌∷◌, ◌≡◌, ◌≢◌, ◌≤◌,
}
use e_slams.Json.{Json}
use e_slams.Arena.{
  Outcome, Player, ScoresSum, as_index, failure_action, is_int, is_legal, nat_action, player_1,
  win_scores,
}
use e_slams.Arena.Contract.{IsArena, Offers, Reachable, opened, played}
use e_slams.Arena.Legality.{
  IsNumber, IsSeated, legal_listed, listed, listed_legal, seated_failure, seated_iff,
  winner_scores-sum,
}
use e_slams.Arenas.ConnectFour.{
  Board, State, apply_action, board_full, cell, cols, drop, initial_state, make_state, open_columns,
  place, rows, rules, settle,
}
use e_slams.Prelude.Int.{ℤ}

-- The shape of the states that `_state` makes.
record IsMade (s : State) : Type 0 where
  seated : IsSeated s (open_columns s.public_state (range cols))
  scored : ScoresSum (if s.terminal then 1 else 0) s.scores
  width : length (get_or s.public_state 0 []) ≡ 7
  gap : s.terminal ≡ false → board_full s.public_state ≡ false

outcome-sum : (o : Option (Outcome Unit)) → ScoresSum (if is_some o then 1 else 0) (win_scores o)
outcome-sum none = unfold win_scores in refl
outcome-sum (some o) = unfold win_scores in winner_scores-sum o.winner

-- A game that has no winner when it is over is a draw.
shared :
    (given : Option (Outcome Unit)) (late full : Bool)
    → ScoresSum (if is_some given || late || full then 1 else 0) (
        win_scores (
          if is_none given && (is_some given || late || full)
          then some (record { winner = none; reason = "draw"; extra = none })
          else given))
shared (some o) late full = outcome-sum (some o)
shared none true full = outcome-sum (some (record { winner = none; reason = "draw"; extra = none }))
shared none false true =
    outcome-sum (some (record { winner = none; reason = "draw"; extra = none }))
shared none false false = outcome-sum none

make_state-IsMade :
    (board : Board) (turn : ℕ) (active : Player) (seed : ℤ) (given : Option (Outcome Unit))
    → length (get_or board 0 []) ≡ 7
    → IsMade (make_state board turn active seed given)
unfolding make_state
make_state-IsMade board turn active seed given wide = record {
  width = wide;
  seated = refl;
  scored = shared given (leb (rows * cols) turn) (board_full board);
  gap = λ h. ground arith;
}

gap-row :
    (row : List (Option Player))
    → all is_some row ≡ false
    → (i : ℕ) × (i < length row) × (is_none (get_or row i none) ≡ true)
gap-row [] h = absurd cc
gap-row (none ∷ row) h = (0, omega arith, refl)
gap-row (some p ∷ row) h = let (i, lt, e) = gap-row row h in (suc i, omega arith, e)

-- A column with room is among the open ones.
open_columns-cons :
    (board : Board) (n k i : ℕ)
    → k ≤ i
    → i < k + n
    → is_none (cell board 0 i) ≡ true
    → (col : ℕ) × (rest : List ℕ) × (open_columns board (range_from k n) ≡ col ∷ rest)
unfolding open_columns
open_columns-cons board zero k i le lt e = absurd (omega arith)
open_columns-cons board (suc n) k i le lt e = elim (Bool-cases (is_none (cell board 0 k))) [
  | inl q ↦ (k, open_columns board (range_from (suc k) n), rw q refl)
  | inr q ↦
      let later : suc k ≤ i = elim (Bool-cases (k == i)) [
        | inl z ↦
            absurd
              (let same = (==_iff k i).0 z in let bad : true ≡ false = sym e ∙ rw same at q in cc)
        | inr z ↦ ground arith
      ] in
      let (col, rest, w) = open_columns-cons board n (suc k) i later (omega arith) e in
      (col, rest, rw q w)
]

-- A column of the board that has room: its top cell is empty.
abbrev pub HasRoom : Board → ℕ → Type 0
HasRoom board col = (col < cols) × (cell board 0 col ≡ none)

listed-open_columns :
    (board : Board) (n k m : ℕ)
    → listed n (open_columns board (range_from k m)) ≡ true
    → (n < k + m) × (cell board 0 n ≡ none)
unfolding open_columns
listed-open_columns board n k zero h = absurd cc
listed-open_columns board n k (suc m) h = elim (Bool-cases (is_none (cell board 0 k))) [
  | inr q ↦
      let (lt, free) = listed-open_columns board n (suc k) m (rw q at h) in (omega arith, free)
  | inl q ↦
      let h' : (n == k || listed n (open_columns board (range_from (suc k) m))) ≡ true =
        rw q at h in
      elim (||_split (n == k) _ h') [
        | inl e ↦
            let same = (==_iff n k).0 e in
            (omega arith, rw same ((is_none_iff (cell board 0 k)).0 q))
        | inr later ↦
            let (lt, free) = listed-open_columns board n (suc k) m later in (omega arith, free)
      ]
]

open_columns-listed :
    (board : Board) (n k m : ℕ)
    → k ≤ n
    → n < k + m
    → cell board 0 n ≡ none
    → listed n (open_columns board (range_from k m)) ≡ true
unfolding open_columns
open_columns-listed board n k zero le lt free = absurd (omega arith)
open_columns-listed board n k (suc m) le lt free = elim (Bool-cases (n == k)) [
  | inl e ↦
      let same = (==_iff n k).0 e in
      let room : is_none (cell board 0 k) ≡ true =
        rw (← same) ((is_none_iff (cell board 0 n)).1 free) in
      rw (room, e) refl
  | inr e ↦
      let rest = open_columns-listed board n (suc k) m (ground arith) (omega arith) free in
      elim (Bool-cases (is_none (cell board 0 k))) [ inl q ↦ rw (q, e) rest | inr q ↦ rw q rest ]
]

open_columns_iff :
    (board : Board) (n : ℕ) → (listed n (open_columns board (range cols)) ≡ true) ↔ HasRoom board n
open_columns_iff board n = (
  λ h. listed-open_columns board n 0 cols h,
  λ free. open_columns-listed board n 0 cols (omega arith) free.0 free.1,
)

width-place :
    (board : Board) (row col : ℕ) (disc : Player)
    → length (get_or (place board row col disc) 0 []) ≡ length (get_or board 0 [])
width-place [] row col disc = refl
width-place (r ∷ board) zero col disc = length-set r col (some disc)
width-place (r ∷ board) (suc row) col disc = refl

width-drop :
    (height : ℕ) (board : Board) (col : ℕ) (disc : Player)
    → length (get_or (drop height board col disc) 0 []) ≡ length (get_or board 0 [])
unfolding drop
width-drop zero board col disc = refl
width-drop (suc row) board col disc = elim (Bool-cases (is_none (cell board row col))) [
  | inl q ↦ rw q (width-place board row col disc)
  | inr q ↦ rw q (width-drop row board col disc)
]

pub apply_action-next :
    (s t : State) (player : Player) (action : Json)
    → apply_action s player action ≡ some t
    → (is_legal s player action ≡ true)
      × (t ≡ settle s player (drop rows s.public_state (as_index action) player))
unfolding apply_action
apply_action-next s t player action h =
    let (legal, e) = guarded_some _ _ h in ((&&_split (is_int action) _ legal).1, sym e)

reachable-IsMade : (s : State) → Reachable rules s → IsMade s
unfolding rules initial_state settle
reachable-IsMade s (opened seed) =
    make_state-IsMade (replicate rows (replicate cols none)) 0 player_1 seed none refl
reachable-IsMade t (played {s = s} r player action h) =
    let (_, e) = apply_action-next s t player action h in
    let kept = width-drop rows s.public_state (as_index action) player in
    rw e (make_state-IsMade _ _ _ _ _ (kept ∙ (reachable-IsMade s r).width))

turn-settle :
    (s : State) (player : Player) (board : Board) → (settle s player board).turn ≡ s.turn + 1
unfolding settle make_state
turn-settle s player board = refl

legal_applies :
    (s : State) (player : Player) (action : Json)
    → IsMade s
    → is_legal s player action ≡ true
    → apply_action s player action ≢ none
unfolding apply_action
legal_applies s player action made legal =
    let (_, _, _, _, z) = legal_listed s _ player action made.seated legal in
    rw (z, legal) (λ e. cc)

cell_to_mark :
    (s : State)
    → IsMade s
    → s.terminal ≡ false
    → (action : Json) × (failure_action s s.active_player ≡ some action)
      × (is_legal s s.active_player action ≡ true)
cell_to_mark s made going =
    let (i, lt, free) = gap-row (get_or s.public_state 0 []) (made.gap going) in
    let width = made.width in
    let (n, rest, e) = open_columns-cons s.public_state cols 0 i (omega arith) (omega arith) free in
    let seated : IsSeated s (n ∷ rest) = subst (IsSeated s) e made.seated in
    (
      nat_action n,
      seated_failure s n rest seated going,
      listed_legal s (n ∷ rest) n seated going (ground arith),
    )

arena : IsArena rules
unfolding rules initial_state
arena = record {
  first_turn = λ seed. refl;
  next_turn = λ s t player action h.
      let (_, e) = apply_action-next s t player action h in rw e (turn-settle s player _);
  legal_applies =
      λ s player action r legal. legal_applies s player action (reachable-IsMade s r) legal;
  applies_legal = λ s t player action r h.
      let (legal, _) = apply_action-next s t player action h in
      let (q, over, _, _, _) = legal_listed s _ player action (reachable-IsMade s r).seated legal in
      (legal, q, over);
  can_move = λ s r going. cell_to_mark s (reachable-IsMade s r) going;
}

-- Connect Four is an arena: the first turn is 0 and each move adds one, exactly the legal actions
-- apply, and a game that is not over can go on. In the states that legal play reaches, the legal
-- actions are the columns whose top cell is empty and no others, for the seat that moves, until the
-- game is over.
pub connect_four-IsArena : IsArena rules × Offers rules (IsNumber HasRoom)
connect_four-IsArena = (
  arena,
  record {
    legal_iff = λ s player action r.
        seated_iff HasRoom s (open_columns s.public_state (range cols)) player action
          (reachable-IsMade s r).seated (open_columns_iff s.public_state);
  },
)

-- In every state that legal play of Connect Four reaches, the scores add up to one when the game is
-- over, and to nothing while it is on.
pub scores-connect_four :
    (s : State) → Reachable rules s → ScoresSum (if s.terminal then 1 else 0) s.scores
scores-connect_four s r = (reachable-IsMade s r).scored
