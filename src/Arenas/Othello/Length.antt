-- ===== src/Arenas/Othello/Length.antt =====
-- A game of Othello ends of itself: every placement fills a cell, and no two passes follow another.
use Prim.Native.Nat.mul
use e_slams.Prelude.{
  All, Bool, Bool-cases, List, Option, [], arith, bind-some, count_if-length, false, if◌then◌else◌,
  inl, inr, is_none, is_some, length, none, refl, some, some-injective, subst, sym, true, ℕ, ◌&&◌,
  ◌*◌, ◌+◌, ◌<◌, ◌||◌, ◌∙◌, ◌∷◌, ◌≡◌, ◌≢◌, ◌≤◌,
}
use e_slams.Prelude.Int.{ℤ}
use e_slams.Json.{Json}
use e_slams.Arena.{
  BySeat, Outcome, Player, ScoresSum, is_legal, other, player_1, player_2, win_scores,
}
use e_slams.Arena.Contract.{Reachable, opened, played}
use e_slams.Arena.Legality.{winner_scores-sum}
use e_slams.Arenas.Othello.{
  OthelloState, apply_action, final_outcome, initial_state, is_finished, make_state, max_turns,
  next_board, opening_board, othello_rules, outcome_of, placements, settle, size,
}
use e_slams.Arenas.Othello.Discs.{discs, discs-place, discs-placed, row-width, row_discs}
use e_slams.Arenas.Othello.Legal.{IsListed, Move, legal-Move, passes, places}
use e_slams.Arenas.Stones.{Board, board_full, cell, place}
use e_slams.Arenas.Stones.Board.{IsSquare, empty-IsSquare, gap, place-IsSquare}

-- The shape of the states that `_state` makes, and how far the turns can be ahead of the discs.
pub record IsMade (s : OthelloState) : Type 0 where
  pub listed : IsListed s
  pub over : s.terminal ≡ is_finished s.public_state
  pub square : IsSquare size s.public_state
  pub scored : ScoresSum (if s.terminal then 1 else 0) s.scores
  pub late : s.turn + 8 ≤ 2 * discs s.public_state + 1
  pub stuck :
      placements s.public_state s.active_player ≡ []
      → s.terminal ≡ false
      → s.turn + 8 ≤ 2 * discs s.public_state

outcome-sum :
    (o : Option (Outcome (BySeat ℕ))) → ScoresSum (if is_some o then 1 else 0) (win_scores o)
outcome-sum none = unfold win_scores in refl
outcome-sum (some o) = unfold win_scores in winner_scores-sum o.winner

over_given :
    (given : Option (Outcome (BySeat ℕ))) (finished : Bool) (o : Outcome (BySeat ℕ))
    → (is_some given ≡ true → finished ≡ true)
    → is_some (if is_none given && finished then some o else given) ≡ finished
over_given none true o h = refl
over_given none false o h = refl
over_given (some g) finished o h = sym (h refl)

module _ (board : Board) (turn : ℕ) (active : Player) (seed : ℤ)
    (given : Option (Outcome (BySeat ℕ)))
    (ends : is_some given ≡ true → is_finished board ≡ true) where
  make_state-IsMade :
      IsSquare size board
      → turn + 8 ≤ 2 * discs board + 1
      → (placements board active ≡ [] → is_finished board ≡ false → turn + 8 ≤ 2 * discs board)
      → IsMade (make_state board turn active seed given)
  unfolding make_state
  make_state-IsMade square late stuck =
      let over = over_given given (is_finished board) (final_outcome board) ends in
      record {
        listed = refl;
        over = over;
        square = square;
        scored = outcome-sum _;
        late = late;
        stuck = λ none_listed going. stuck none_listed (sym over ∙ going);
      }

row_discs-le : (row : List (Option Player)) → row_discs row ≤ length row
row_discs-le row = count_if-length is_some row

discs-le : (board : Board) → All (λ r. length r ≡ size) board → discs board ≤ length board * size
discs-le [] h = omega arith
discs-le (r ∷ board) (h, hs) =
    let here = row_discs-le r in
    let rest = discs-le board hs in let more = mul.suc (length board) size in omega arith

-- A board that is not full has a cell left.
discs-lt :
    (board : Board) → IsSquare size board → board_full board ≡ false → discs board < size * size
discs-lt board square h =
    let (row, col, lt, wide, e) = gap size board h square.width in
    let height = square.height in
    let width = row-width board row square.width lt in
    let added = discs-place board row col player_1 lt (omega arith) in
    let empty : is_some (cell board row col) ≡ false = not_some (cell board row col) e in
    let added' : discs (place board row col player_1) + 0 ≡ discs board + 1 = rw empty at added in
    let filled = place-IsSquare size board row col player_1 square in
    let most = discs-le (place board row col player_1) filled.width in
    let filled_height = filled.height in
    let most' : discs (place board row col player_1) ≤ 8 * 8 = rw filled_height at most in
    omega arith
  where
    not_some : (c : Option Player) → is_none c ≡ true → is_some c ≡ false
    not_some none q = refl
    not_some (some p) q = absurd cc

outcome_of-finished : (board : Board) → is_some (outcome_of board) ≡ true → is_finished board ≡ true
outcome_of-finished board h = elim (Bool-cases (is_finished board)) [
  | inl q ↦ q
  | inr q ↦ absurd (let bad = rw q at h in cc)
]

-- In a game that goes on one of the seats has a placement.
one_can :
    (board : Board) (p : Player)
    → is_finished board ≡ false
    → placements board p ≡ []
    → placements board (other p) ≢ []
one_can board player_1 h none_1 none_2 = absurd (let bad = rw (none_1, none_2) at h in ground arith)
one_can board player_2 h none_2 none_1 = absurd (let bad = rw (none_1, none_2) at h in ground arith)

-- What the board of a move is.
pub Move-board :
    (s : OthelloState) (a : Json) (board : Board)
    → IsMade s
    → s.terminal ≡ false
    → Move s.public_state s.active_player a
    → next_board s.public_state s.active_player a ≡ some board
    → IsMade (settle s s.active_player board)
unfolding next_board settle
Move-board s a board m going (passes none_listed) h =
    let same = some-injective s.public_state board h in
    let behind = m.stuck none_listed going in
    let goes_on : is_finished s.public_state ≡ false = sym m.over ∙ going in
    subst (λ b. IsMade (make_state b (s.turn + 1) (other s.active_player) s.seed (outcome_of b)))
      same
      (make_state-IsMade s.public_state (s.turn + 1) (other s.active_player) s.seed
        (outcome_of s.public_state) (outcome_of-finished s.public_state) m.square (omega arith)
        (λ none_too _.
          absurd (one_can s.public_state s.active_player goes_on none_listed none_too)))
Move-board s a board m going (places p flip) h =
    let (more, square) = discs-placed s.public_state board p s.active_player m.square h in
    let behind = m.late in
    make_state-IsMade board (s.turn + 1) (other s.active_player) s.seed (outcome_of board)
      (outcome_of-finished board) square (omega arith) (λ _ _. omega arith)

pub apply_action-next :
    (s t : OthelloState) (player : Player) (a : Json)
    → apply_action s player a ≡ some t
    → (is_legal s player a ≡ true)
      × ((board : Board) × (next_board s.public_state player a ≡ some board)
          × (settle s player board ≡ t))
unfolding apply_action
apply_action-next s t player a h = elim (Bool-cases (is_legal s player a)) [
  | inr q ↦ absurd (let bad = rw q at h in cc)
  | inl q ↦
      let ran = rw q at h in
      let (board, next, same) =
        bind-some (next_board s.public_state player a) (λ board. some (settle s player board))
          ran in
      (q, (board, next, some-injective _ _ same))
]

pub opening-IsSquare : IsSquare size opening_board
opening-IsSquare = place-IsSquare size _ 4 4 player_2 (
    place-IsSquare size _ 4 3 player_1 (
      place-IsSquare size _ 3 4 player_1
        (place-IsSquare size _ 3 3 player_2 (empty-IsSquare size))))

pub reachable-IsMade : (s : OthelloState) → Reachable othello_rules s → IsMade s
unfolding othello_rules initial_state
reachable-IsMade s (opened seed) =
    make_state-IsMade opening_board 0 player_1 seed none (λ bad. absurd cc) opening-IsSquare
      (omega arith) (λ _ _. omega arith)
reachable-IsMade t (played {s = s} r player a h) =
    let m = reachable-IsMade s r in
    let (legal, (board, next, same)) = apply_action-next s t player a h in
    let (seat, going, move) = legal-Move s player a m.listed legal in
    let next' : next_board s.public_state s.active_player a ≡ some board = rw seat at next in
    let done : IsMade (settle s s.active_player board) = Move-board s a board m going move next' in
    subst IsMade same (rw seat done)

-- A game of Othello that legal play reaches, and that goes on, is before its turn limit: the limit
-- of 120 turns never ends a game.
pub othello-ends :
    (s : OthelloState) → Reachable othello_rules s → s.terminal ≡ false → s.turn < max_turns
othello-ends s r going =
    let m = reachable-IsMade s r in
    let behind = m.late in
    let goes_on : is_finished s.public_state ≡ false = sym m.over ∙ going in
    let room : board_full s.public_state ≡ false =
      first_false (board_full s.public_state) _ goes_on in
    let less = discs-lt s.public_state m.square room in omega arith
  where
    first_false : (a b : Bool) → (a || b) ≡ false → a ≡ false
    first_false a b e = ground arith
