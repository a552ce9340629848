-- ===== src/Arenas/Stones/Board.antt =====
-- Square boards: what a stone leaves, and that a board that is not full has a legal cell.
use e_slams.Prelude.{
  ==_iff, All, Bool-cases, List, Option, [], all, ap, arith, false, get_or, inl, inr, is_none,
  is_some, length, length-set, none, range, range_from, refl, replicate, some, suc, sym, true, zero,
  ℕ, ◌*◌, ◌++◌, ◌+◌, ◌<◌, ◌==◌, ◌∙◌, ◌∷◌, ◌≡◌, ◌≤◌,
}
use e_slams.Arena.{Player}
use e_slams.Arenas.Stones.{Board, board_full, cell, cells_in, legal_cells, place, row_cells}

-- As many rows as columns, and all rows as long.
pub record IsSquare (size : ℕ) (board : Board) : Type 0 where
  pub height : length board ≡ size
  pub width : All (λ row. length row ≡ size) board

length-replicate {ℓ} : {A : Type ℓ} (n : ℕ) (x : A) → length (replicate n x) ≡ n
length-replicate zero x = refl
length-replicate (suc n) x = ap suc (length-replicate n x)

All-replicate {ℓ κ} : {A : Type ℓ} (P : A → Type κ) (n : ℕ) (x : A) → P x → All P (replicate n x)
All-replicate P zero x h = tt
All-replicate P (suc n) x h = (h, All-replicate P n x h)

pub empty-IsSquare : (size : ℕ) → IsSquare size (replicate size (replicate size none))
empty-IsSquare size = record {
  height = length-replicate size (replicate size none);
  width = All-replicate _ size (replicate size none) (length-replicate size none);
}

-- A row that is not on the board changes nothing.
width-place :
    (size : ℕ) (board : Board) (row col : ℕ) (stone : Player)
    → All (λ r. length r ≡ size) board
    → All (λ r. length r ≡ size) (place board row col stone)
width-place size [] row col stone h = tt
width-place size (r ∷ board) zero col stone (h, hs) = (length-set r col (some stone) ∙ h, hs)
width-place size (r ∷ board) (suc row) col stone (h, hs) =
    (h, width-place size board row col stone hs)

pub place-IsSquare :
    (size : ℕ) (board : Board) (row col : ℕ) (stone : Player)
    → IsSquare size board
    → IsSquare size (place board row col stone)
place-IsSquare size board row col stone square = record {
  height = length-set board row _ ∙ square.height;
  width = width-place size board row col stone square.width;
}

gap-row :
    (row : List (Option Player))
    → all is_some row ≡ false
    → (i : ℕ) × (i < length row) × (is_none (get_or row i none) ≡ true)
gap-row [] h = absurd cc
gap-row (none ∷ row) h = (0, omega arith, refl)
gap-row (some p ∷ row) h = let (i, lt, e) = gap-row row h in (suc i, omega arith, e)

-- A board that is not full has an empty cell.
pub gap :
    (size : ℕ) (board : Board)
    → board_full board ≡ false
    → All (λ r. length r ≡ size) board
    → (row : ℕ) × (col : ℕ) × (row < length board)
      × (col < size)
      × (is_none (cell board row col) ≡ true)
gap size [] h w = absurd cc
gap size (r ∷ board) h (w, ws) = elim (Bool-cases (all is_some r)) [
  | inr q ↦ let (col, lt, e) = gap-row r q in (0, col, omega arith, omega arith, e)
  | inl q ↦
      let (row, col, lt, wide, e) = gap size board (rw q at h) ws in
      (suc row, col, omega arith, wide, e)
]

row_cells-cons :
    (board : Board) (size row n k i : ℕ)
    → k ≤ i
    → i < k + n
    → is_none (cell board row i) ≡ true
    → (c : ℕ) × (rest : List ℕ) × (row_cells board size row (range_from k n) ≡ c ∷ rest)
unfolding row_cells
row_cells-cons board size row zero k i le lt e = absurd (omega arith)
row_cells-cons board size row (suc n) k i le lt e = elim (Bool-cases (is_none (cell board row k))) [
  | inl q ↦ (row * size + k, row_cells board size row (range_from (suc k) n), rw q refl)
  | inr q ↦
      let later : suc k ≤ i = elim (Bool-cases (k == i)) [
        | inl z ↦
            absurd
              (let same = (==_iff k i).0 z in let bad : true ≡ false = sym e ∙ rw same at q in cc)
        | inr z ↦ ground arith
      ] in
      let (c, rest, w) = row_cells-cons board size row n (suc k) i later (omega arith) e in
      (c, rest, rw q w)
]

append-cons :
    (xs ys : List ℕ) {c : ℕ} {rest : List ℕ}
    → ys ≡ c ∷ rest
    → (d : ℕ) × (more : List ℕ) × (xs ++ ys ≡ d ∷ more)
append-cons [] ys e = (_, _, e)
append-cons (x ∷ xs) ys e = (x, xs ++ ys, refl)

cells_in-cons :
    (board : Board) (size n k row col : ℕ)
    → k ≤ row
    → row < k + n
    → col < size
    → is_none (cell board row col) ≡ true
    → (c : ℕ) × (rest : List ℕ) × (cells_in board size (range_from k n) ≡ c ∷ rest)
unfolding cells_in
cells_in-cons board size zero k row col le lt wide e = absurd (omega arith)
cells_in-cons board size (suc n) k row col le lt wide e = elim (Bool-cases (k == row)) [
  | inl z ↦
      let same = (==_iff k row).0 z in
      let (c, rest, w) = row_cells-cons board size row size 0 col (omega arith) (omega arith) e in
      (c, rest ++ cells_in board size (range_from (suc k) n), rw (same, w) refl)
  | inr z ↦
      let (c, rest, w) =
        cells_in-cons board size n (suc k) row col (ground arith) (omega arith) wide e in
      append-cons (row_cells board size k (range size)) _ w
]

-- A board that is not full has a legal cell.
pub legal_cells-cons :
    (size : ℕ) (board : Board)
    → IsSquare size board
    → board_full board ≡ false
    → (c : ℕ) × (rest : List ℕ) × (legal_cells board size ≡ c ∷ rest)
unfolding legal_cells
legal_cells-cons size board square h =
    let (row, col, lt, wide, e) = gap size board h square.width in
    let height = square.height in
    cells_in-cons board size size 0 row col (omega arith) (omega arith) wide e
