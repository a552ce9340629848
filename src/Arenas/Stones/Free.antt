-- ===== src/Arenas/Stones/Free.antt =====
-- `_legal_cells` of src/eslams/arenas/gomoku.py and hex.py lists the empty cells and no others.
use e_slams.Prelude.{
  ==_iff, Bool-cases, arith, inl, inr, is_none, is_none_iff, none, range, range_from, refl, suc,
  sym, true, zero, ||_split, ℕ, ◌*◌, ◌+◌, ◌<◌, ◌==◌, ◌||◌, ◌↔◌, ◌∙◌, ◌≡◌, ◌≤◌,
}
use e_slams.Arena.Legality.{listed, listed-append}
use e_slams.Arenas.Stones.{Board, cell, cells_in, legal_cells, row_cells}

-- The number of a cell of the board, row by row, that is empty.
abbrev pub IsEmptyCell : ℕ → Board → ℕ → Type 0
IsEmptyCell size board n =
    (row : ℕ) × (col : ℕ) × (n ≡ row * size + col)
    × (row < size)
    × (col < size)
    × (cell board row col ≡ none)

module _ (board : Board) (size n : ℕ) where
  listed-row_cells :
      (row k m : ℕ)
      → listed n (row_cells board size row (range_from k m)) ≡ true
      → (col : ℕ) × (n ≡ row * size + col) × (col < k + m) × (cell board row col ≡ none)
  unfolding row_cells
  listed-row_cells row k zero h = absurd cc
  listed-row_cells row k (suc m) h = elim (Bool-cases (is_none (cell board row k))) [
    | inr q ↦
        let (col, same, lt, free) = listed-row_cells row (suc k) m (rw q at h) in
        (col, same, omega arith, free)
    | inl q ↦
        let h' : (n == row * size + k || listed n (row_cells board size row (range_from (suc k) m)))
            ≡ true =
          rw q at h in
        elim (||_split (n == row * size + k) _ h') [
          | inl e ↦ (k, (==_iff n (row * size + k)).0 e, omega arith, (is_none_iff _).0 q)
          | inr later ↦
              let (col, same, lt, free) = listed-row_cells row (suc k) m later in
              (col, same, omega arith, free)
        ]
  ]

  row_cells-listed :
      (row col k m : ℕ)
      → n ≡ row * size + col
      → k ≤ col
      → col < k + m
      → cell board row col ≡ none
      → listed n (row_cells board size row (range_from k m)) ≡ true
  unfolding row_cells
  row_cells-listed row col k zero same le lt free = absurd (omega arith)
  row_cells-listed row col k (suc m) same le lt free = elim (Bool-cases (k == col)) [
    | inl e ↦
        let here = (==_iff k col).0 e in
        let empty : is_none (cell board row k) ≡ true =
          rw here ((is_none_iff (cell board row col)).1 free) in
        let found : (n == row * size + k) ≡ true = rw here ((==_iff _ _).1 same) in
        rw (empty, found) refl
    | inr e ↦
        let rest = row_cells-listed row col (suc k) m same (ground arith) (omega arith) free in
        elim (Bool-cases (is_none (cell board row k))) [
          | inl q ↦ rw q (ground arith)
          | inr q ↦ rw q rest
        ]
  ]

  listed-cells_in :
      (k m : ℕ)
      → listed n (cells_in board size (range_from k m)) ≡ true
      → (row : ℕ) × (col : ℕ) × (n ≡ row * size + col)
        × (row < k + m)
        × (col < size)
        × (cell board row col ≡ none)
  unfolding cells_in
  listed-cells_in k zero h = absurd cc
  listed-cells_in k (suc m) h =
      let split = listed-append n (row_cells board size k (range size)) _ in
      elim (||_split (listed n (row_cells board size k (range size))) _ (sym split ∙ h)) [
        | inl here ↦
            let (col, same, lt, free) = listed-row_cells k 0 size here in
            (k, col, same, omega arith, omega arith, free)
        | inr later ↦
            let (row, col, same, lt, wide, free) = listed-cells_in (suc k) m later in
            (row, col, same, omega arith, wide, free)
      ]

  cells_in-listed :
      (row col k m : ℕ)
      → n ≡ row * size + col
      → k ≤ row
      → row < k + m
      → col < size
      → cell board row col ≡ none
      → listed n (cells_in board size (range_from k m)) ≡ true
  unfolding cells_in
  cells_in-listed row col k zero same le lt wide free = absurd (omega arith)
  cells_in-listed row col k (suc m) same le lt wide free =
      listed-append n (row_cells board size k (range size)) _ ∙ (elim (Bool-cases (k == row)) [
        | inl e ↦
            let here = (==_iff k row).0 e in
            let found = row_cells-listed row col 0 size same (omega arith) (omega arith) free in
            rw (here, found) refl
        | inr e ↦
            let later =
              cells_in-listed row col (suc k) m same (ground arith) (omega arith) wide free in
            ground arith
      ])

pub legal_cells_iff :
    (board : Board) (size n : ℕ)
    → (listed n (legal_cells board size) ≡ true) ↔ IsEmptyCell size board n
unfolding legal_cells
legal_cells_iff board size n = (
  λ h.
      let (row, col, same, lt, wide, free) = listed-cells_in board size n 0 size h in
      (row, col, same, omega arith, wide, free),
  λ free.
      let (row, col, same, lt, wide, empty) = free in
      cells_in-listed board size n row col 0 size same (omega arith) (omega arith) wide empty,
)
