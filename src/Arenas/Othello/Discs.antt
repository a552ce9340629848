-- ===== src/Arenas/Othello/Discs.antt =====
-- How many cells of a board hold a disc, and what a placement of Othello adds.
use e_slams.Prelude.{
  &&_split, All, All-append, All-map, Bool, Bool-cases, List, Option, [], arith, count_if, false,
  get_or, guarded_some, if_rule, if◌then◌else◌, inl, inr, is_some, length, ltb, ltb→lt, map, none,
  not, refl, set, some, subst, suc, sum, true, zero, ℕ, ◌&&◌, ◌++◌, ◌+◌, ◌<◌, ◌||◌, ◌∙◌, ◌∷◌, ◌≡◌,
}
use e_slams.Arena.{Player, other}
use e_slams.Arenas.Stones.Board.{IsSquare, place-IsSquare}
use e_slams.Arenas.Stones.{Board, Cell, Delta, cell, holds, neighbor, place}
use e_slams.Arenas.Othello.{
  directions, ends_with, flipped, flips, flips_along, has_disc, inside, is_path, place_all, placed,
  size, walk,
}

abbrev pub row_discs : List (Option Player) → ℕ
row_discs row = count_if is_some row

-- The cells with a disc.
abbrev pub discs : Board → ℕ
discs board = sum (map row_discs board)

-- A disc on an empty cell of a row is one more, and one on another leaves their number.
row_discs-set :
    (row : List (Option Player)) (i : ℕ) (disc : Player)
    → i < length row
    → row_discs (set row i (some disc)) + (if is_some (get_or row i none) then 1 else 0)
      ≡ row_discs row + 1
row_discs-set [] i disc h = absurd (omega arith)
row_discs-set (x ∷ row) zero disc h = omega arith
row_discs-set (x ∷ row) (suc i) disc h = omega (arith, row_discs-set row i disc (omega arith))

pub discs-place :
    (board : Board) (row col : ℕ) (disc : Player)
    → row < length board
    → col < length (get_or board row [])
    → discs (place board row col disc) + (if is_some (cell board row col) then 1 else 0)
      ≡ discs board + 1
discs-place [] row col disc h k = absurd (omega arith)
discs-place (r ∷ board) zero col disc h k = let here = row_discs-set r col disc k in omega arith
discs-place (r ∷ board) (suc row) col disc h k =
    omega (arith, discs-place board row col disc (omega arith) k)

-- Discs do not leave a cell.
row-stays :
    (row : List (Option Player)) (i j : ℕ) (disc : Player)
    → is_some (get_or row j none) ≡ true
    → is_some (get_or (set row i (some disc)) j none) ≡ true
row-stays [] i j disc h = h
row-stays (x ∷ row) zero zero disc h = refl
row-stays (x ∷ row) zero (suc j) disc h = h
row-stays (x ∷ row) (suc i) zero disc h = h
row-stays (x ∷ row) (suc i) (suc j) disc h = row-stays row i j disc h

cell-stays :
    (board : Board) (row col r c : ℕ) (disc : Player)
    → is_some (cell board r c) ≡ true
    → is_some (cell (place board row col disc) r c) ≡ true
cell-stays [] row col r c disc h = h
cell-stays (x ∷ board) zero col zero c disc h = row-stays x col c disc h
cell-stays (x ∷ board) zero col (suc r) c disc h = h
cell-stays (x ∷ board) (suc row) col zero c disc h = h
cell-stays (x ∷ board) (suc row) col (suc r) c disc h = cell-stays board row col r c disc h

-- A cell with a disc is on the board.
row-in : (row : List (Option Player)) (i : ℕ) → is_some (get_or row i none) ≡ true → i < length row
row-in [] i h = absurd cc
row-in (x ∷ row) zero h = omega arith
row-in (x ∷ row) (suc i) h = let rest = row-in row i h in omega arith

cell-in :
    (board : Board) (row col : ℕ)
    → is_some (cell board row col) ≡ true
    → (row < length board) × (col < length (get_or board row []))
cell-in [] row col h = absurd cc
cell-in (x ∷ board) zero col h = (omega arith, row-in x col h)
cell-in (x ∷ board) (suc row) col h = let (a, b) = cell-in board row col h in (omega arith, b)

abbrev pub IsTaken : Board → Cell → Type 0
IsTaken board p = is_some (cell board p.0 p.1) ≡ true

discs-place_taken :
    (board : Board) (p : Cell) (disc : Player)
    → IsTaken board p
    → discs (place board p.0 p.1 disc) ≡ discs board
discs-place_taken board p disc h =
    let (a, b) = cell-in board p.0 p.1 h in
    let k = discs-place board p.0 p.1 disc a b in
    let k' : discs (place board p.0 p.1 disc) + 1 ≡ discs board + 1 = rw h at k in omega arith

pub discs-place_all :
    (board : Board) (ps : List Cell) (disc : Player)
    → All (IsTaken board) ps
    → discs (place_all board ps disc) ≡ discs board
discs-place_all board [] disc h = refl
discs-place_all board (p ∷ ps) disc (h, hs) =
    let stay =
      All-map (IsTaken board) (IsTaken (place board p.0 p.1 disc)) ps
        (λ q t. cell-stays board p.0 p.1 q.0 q.1 disc t) hs in
    discs-place_all (place board p.0 p.1 disc) ps disc stay ∙ discs-place_taken board p disc h

pub place_all-IsSquare :
    (board : Board) (ps : List Cell) (disc : Player)
    → IsSquare size board
    → IsSquare size (place_all board ps disc)
place_all-IsSquare board [] disc h = h
place_all-IsSquare board (p ∷ ps) disc h =
    place_all-IsSquare (place board p.0 p.1 disc) ps disc (place-IsSquare size board p.0 p.1 disc h)

has_disc-IsTaken :
    (board : Board) (disc : Player) (p : Cell) → has_disc board disc p ≡ true → IsTaken board p
has_disc-IsTaken board disc p h = held (cell board p.0 p.1) (&&_split _ _ h).1
  where
    held : (c : Option Player) → holds c disc ≡ true → is_some c ≡ true
    held none e = e
    held (some q) e = refl

walk-All :
    (fuel : ℕ) (board : Board) (opponent : Player) (d : Delta × Delta) (o : Option Cell)
    (path : List Cell)
    → All (IsTaken board) path
    → All (IsTaken board) (walk fuel board opponent d o path).0
unfolding walk
walk-All zero board opponent d none path h = h
walk-All (suc fuel) board opponent d none path h = h
walk-All zero board opponent d (some p) path h = h
walk-All (suc fuel) board opponent d (some p) path h =
    if_rule {A = List Cell × Option Cell} (λ w. All (IsTaken board) w.0) (has_disc board opponent p)
      (λ e.
        walk-All fuel board opponent d (neighbor p d) (path ++ p ∷ [])
          (All-append (IsTaken board) path (p ∷ []) h (has_disc-IsTaken board opponent p e, tt)))
      (λ _. h)

flips_along-All :
    (board : Board) (p : Cell) (disc : Player) (ds : List (Delta × Delta))
    → All (IsTaken board) (flips_along board p disc ds)
unfolding flips_along
flips_along-All board p disc [] = tt
flips_along-All board p disc (d ∷ ds) =
    let w = walk size board (other disc) d (neighbor p d) [] in
    All-append (IsTaken board) (flipped board disc w) (flips_along board p disc ds)
      (if_rule (All (IsTaken board)) (is_path w.0 && ends_with board disc w.1)
        (λ _. walk-All size board (other disc) d (neighbor p d) [] tt) (λ _. tt))
      (flips_along-All board p disc ds)

-- What a placement flips are cells with discs, and its own cell is empty and on the board.
pub flips-All :
    (board : Board) (p : Cell) (disc : Player)
    → is_path (flips board p disc) ≡ true
    → All (IsTaken board) (flips board p disc)
      × (inside p ≡ true)
      × (is_some (cell board p.0 p.1) ≡ false)
unfolding flips
flips-All board p disc h = elim (Bool-cases (not (inside p) || is_some (cell board p.0 p.1))) [
  | inl q ↦ absurd (let bad = rw q at h in cc)
  | inr q ↦ (
    if_rule (All (IsTaken board)) (not (inside p) || is_some (cell board p.0 p.1)) (λ _. tt)
        (λ _. flips_along-All board p disc directions),
    on_board (inside p) _ q,
    empty_cell (inside p) _ q,
  )
]
  where
    on_board : (a b : Bool) → (not a || b) ≡ false → a ≡ true
    on_board a b e = ground arith

    empty_cell : (a b : Bool) → (not a || b) ≡ false → b ≡ false
    empty_cell a b e = ground arith

pub row-width :
    (board : Board) (row : ℕ)
    → All (λ r. length r ≡ size) board
    → row < length board
    → length (get_or board row []) ≡ size
row-width [] row h lt = absurd (omega arith)
row-width (r ∷ board) zero (h, hs) lt = h
row-width (r ∷ board) (suc row) (h, hs) lt = row-width board row hs (omega arith)

-- A placement adds one disc, however many it flips.
pub discs-placed :
    (board board' : Board) (p : Cell) (disc : Player)
    → IsSquare size board
    → placed board disc p ≡ some board'
    → (discs board' ≡ discs board + 1) × IsSquare size board'
unfolding placed
discs-placed board board' p disc square h =
    let (some_flips, made) = guarded_some (is_path (flips board p disc)) _ h in
    let (taken, within, empty) = flips-All board p disc some_flips in
    let (high, wide) = &&_split (ltb p.0 size) _ within in
    let row = ltb→lt _ _ high in
    let col = ltb→lt _ _ wide in
    let height = square.height in
    let width = row-width board p.0 square.width (omega arith) in
    let first = discs-place board p.0 p.1 disc (omega arith) (omega arith) in
    let first' : discs (place board p.0 p.1 disc) + 0 ≡ discs board + 1 = rw empty at first in
    let stay =
      All-map (IsTaken board) (IsTaken (place board p.0 p.1 disc)) (flips board p disc)
        (λ q t. cell-stays board p.0 p.1 q.0 q.1 disc t) taken in
    let rest = discs-place_all (place board p.0 p.1 disc) (flips board p disc) disc stay in
    subst (λ b. (discs b ≡ discs board + 1) × IsSquare size b) made
      (
        rest ∙ omega arith,
        place_all-IsSquare (place board p.0 p.1 disc) (flips board p disc) disc
            (place-IsSquare size board p.0 p.1 disc square),
      )
