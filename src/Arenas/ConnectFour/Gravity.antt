-- ===== src/Arenas/ConnectFour/Gravity.antt =====
-- No disc floats: `apply_action` of src/eslams/arenas/connect_four.py drops a disc onto the floor
-- or onto another disc.
use e_slams.Prelude.{
  Bool-cases, List, Option, [], ap, arith, false, get_or, inl, inr, is_none, is_some, none, refl,
  replicate, set, some, subst, suc, true, zero, ℕ, ◌+◌, ◌<◌, ◌∷◌, ◌≡◌, ◌⊎◌,
}
use e_slams.Arena.{Player, as_index}
use e_slams.Arenas.ConnectFour.{
  Board, State, cell, cols, drop, initial_state, make_state, place, rows, rules, settle,
}
use e_slams.Prelude.Int.{ℤ}
use e_slams.Arena.Contract.{Reachable, opened, played}
use e_slams.Arenas.ConnectFour.Contract.{apply_action-next}

-- Below every disc is another disc, or the floor.
abbrev pub IsStacked : Board → Type 0
IsStacked board =
    (row col : ℕ)
    → row + 1 < rows
    → is_some (cell board row col) ≡ true
    → is_some (cell board (row + 1) col) ≡ true

suc_add : (n : ℕ) → n + 1 ≡ suc n
suc_add n = omega arith

is_some-set :
    (xs : List (Option Player)) (i j : ℕ) (p : Player)
    → is_some (get_or xs j none) ≡ true
    → is_some (get_or (set xs i (some p)) j none) ≡ true
is_some-set [] i j p h = h
is_some-set (x ∷ xs) zero zero p h = refl
is_some-set (x ∷ xs) zero (suc j) p h = h
is_some-set (x ∷ xs) (suc i) zero p h = h
is_some-set (x ∷ xs) (suc i) (suc j) p h = is_some-set xs i j p h

set-is_some :
    (xs : List (Option Player)) (i j : ℕ) (p : Player)
    → is_some (get_or (set xs i (some p)) j none) ≡ true
    → (i ≡ j) ⊎ (is_some (get_or xs j none) ≡ true)
set-is_some [] i j p h = inr h
set-is_some (x ∷ xs) zero zero p h = inl refl
set-is_some (x ∷ xs) zero (suc j) p h = inr h
set-is_some (x ∷ xs) (suc i) zero p h = inr h
set-is_some (x ∷ xs) (suc i) (suc j) p h = elim (set-is_some xs i j p h) [
  | inl e ↦ inl (ap suc e)
  | inr e ↦ inr e
]

-- A disc that is placed covers no other.
place-keeps :
    (board : Board) (row col r c : ℕ) (p : Player)
    → is_some (cell board r c) ≡ true
    → is_some (cell (place board row col p) r c) ≡ true
place-keeps [] row col r c p h = h
place-keeps (x ∷ board) zero col zero c p h = is_some-set x col c p h
place-keeps (x ∷ board) zero col (suc r) c p h = h
place-keeps (x ∷ board) (suc row) col zero c p h = h
place-keeps (x ∷ board) (suc row) col (suc r) c p h = place-keeps board row col r c p h

place-adds :
    (board : Board) (row col r c : ℕ) (p : Player)
    → is_some (cell (place board row col p) r c) ≡ true
    → ((row ≡ r) × (col ≡ c)) ⊎ (is_some (cell board r c) ≡ true)
place-adds [] row col r c p h = inr h
place-adds (x ∷ board) zero col zero c p h = elim (set-is_some x col c p h) [
  | inl e ↦ inl (refl, e)
  | inr e ↦ inr e
]
place-adds (x ∷ board) zero col (suc r) c p h = inr h
place-adds (x ∷ board) (suc row) col zero c p h = inr h
place-adds (x ∷ board) (suc row) col (suc r) c p h = elim (place-adds board row col r c p h) [
  | inl (e, w) ↦ inl (ap suc e, w)
  | inr e ↦ inr e
]

place-IsStacked :
    (board : Board) (row col : ℕ) (p : Player)
    → (row + 1 < rows → is_some (cell board (row + 1) col) ≡ true)
    → IsStacked board
    → IsStacked (place board row col p)
place-IsStacked board row col p support stacked r c lt h = elim (place-adds board row col r c p h) [
  | inr e ↦ place-keeps board row col (r + 1) c p (stacked r c lt e)
  | inl (e, w) ↦ place-keeps board row col (r + 1) c p (
      subst (λ x. is_some (cell board (r + 1) x) ≡ true) w
        (subst (λ x. is_some (cell board (x + 1) col) ≡ true) e (support (rw e lt))))
]

-- A disc dropped from below `height`, with the cell at `height` filled or the floor, is stacked.
drop-IsStacked :
    (height : ℕ) (board : Board) (col : ℕ) (p : Player)
    → (height < rows → is_some (cell board height col) ≡ true)
    → IsStacked board
    → IsStacked (drop height board col p)
unfolding drop
drop-IsStacked zero board col p support stacked = stacked
drop-IsStacked (suc row) board col p support stacked =
    elim (Bool-cases (is_none (cell board row col))) [
      | inr q ↦ rw q (drop-IsStacked row board col p (λ _. filled (cell board row col) q) stacked)
      | inl q ↦
          rw q (
            place-IsStacked board row col p (λ lt. rw (suc_add row) (support (omega arith)))
              stacked)
    ]
  where
    filled : (x : Option Player) → is_none x ≡ false → is_some x ≡ true
    filled none e = absurd cc
    filled (some y) e = refl

empty-row : (n i : ℕ) → is_some {A = Player} (get_or (replicate n none) i none) ≡ false
empty-row zero i = refl
empty-row (suc n) zero = refl
empty-row (suc n) (suc i) = empty-row n i

empty-board : (m n r c : ℕ) → is_some (cell (replicate m (replicate n none)) r c) ≡ false
empty-board zero n r c = refl
empty-board (suc m) n zero c = empty-row n c
empty-board (suc m) n (suc r) c = empty-board m n r c

board-initial_state :
    (seed : ℤ) → (initial_state seed).public_state ≡ replicate rows (replicate cols none)
unfolding initial_state make_state
board-initial_state seed = refl

board-settle :
    (s : State) (player : Player) (board : Board) → (settle s player board).public_state ≡ board
unfolding settle make_state
board-settle s player board = refl

-- In every state that legal play of Connect Four reaches, no disc floats: below every disc is
-- another disc, or the floor.
pub connect_four-IsStacked : (s : State) → Reachable rules s → IsStacked s.public_state
unfolding rules
connect_four-IsStacked s (opened seed) = λ r c lt h.
    let h' = rw (board-initial_state seed) at h in let gap = empty-board rows cols r c in absurd cc
connect_four-IsStacked t (played {s = s} reached player action h) =
    let (_, e) = apply_action-next s t player action h in
    let stacked =
      drop-IsStacked rows s.public_state (as_index action) player (λ lt. absurd (omega arith))
        (connect_four-IsStacked s reached) in
    rw (e, board-settle s player (drop rows s.public_state (as_index action) player)) stacked
