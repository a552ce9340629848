-- ===== src/Arenas/Mancala/Conservation.antt =====
-- No stone is lost: sowing, capturing and the final sweep keep the total of 48.
use e_slams.Prelude.{
  Bool-cases, List, [], arith, get_or, inl, inr, length, length-set, ltb, refl, set, suc, sum, zero,
  ℕ, ◌&&◌, ◌+◌, ◌-◌, ◌<◌, ◌∷◌, ◌≡◌,
}
use e_slams.Arena.{Player, at_seat, player_1, player_2, same_player}
use e_slams.Arenas.Mancala.{
  Board, Position, Slot, State, at_slot, capture_at, drop_in, finish_sowing, is_store, lift_pit,
  move, next_position, next_slot, pit, settle, side_empty, sow, store, sweep,
}

-- Two rows of six pits.
pub record IsBoard (b : Board) : Type 0 where
  pub first_row : length b.pits.first ≡ 6
  pub second_row : length b.pits.second ≡ 6

abbrev pub InRow : Slot → Type 0
InRow store = Unit
InRow (pit i) = i < 6

abbrev pub stones : Board → ℕ
stones b = sum b.pits.first + sum b.pits.second + b.stores.first + b.stores.second

pub sum-set :
    (xs : List ℕ) (i v : ℕ) → i < length xs → sum (set xs i v) + get_or xs i 0 ≡ sum xs + v
sum-set [] i v h = elim h [ ]
sum-set (x ∷ xs) zero v h = omega arith
sum-set (x ∷ xs) (suc i) v h = omega (arith, sum-set xs i v (omega arith))

next_slot-InRow :
    (owner : Player) (slot : Slot) (active : Player)
    → InRow slot
    → InRow (next_slot owner slot active).slot
unfolding next_slot
next_slot-InRow owner store active h = omega arith
next_slot-InRow owner (pit i) active h = elim (Bool-cases (ltb i 5)) [
  | inl e ↦ rw e (ground arith)
  | inr e ↦ rw e (elim (Bool-cases (same_player owner active)) [
    | inl k ↦ rw k tt
    | inr k ↦ rw k (omega arith)
  ])
]

next_position-InRow :
    (p : Position) (active : Player) → InRow p.slot → InRow (next_position p active).slot
unfolding next_position
next_position-InRow p active h = next_slot-InRow p.owner p.slot active h

drop_in-IsBoard :
    (owner : Player) (slot : Slot) (b : Board) → IsBoard b → IsBoard (drop_in owner slot b)
unfolding drop_in
drop_in-IsBoard player_1 store b w = ground arith
drop_in-IsBoard player_2 store b w = ground arith
drop_in-IsBoard player_1 (pit i) b w =
    ground (arith, length-set b.pits.first i (get_or b.pits.first i 0 + 1))
drop_in-IsBoard player_2 (pit i) b w =
    ground (arith, length-set b.pits.second i (get_or b.pits.second i 0 + 1))

stones-drop_in :
    (owner : Player) (slot : Slot) (b : Board)
    → IsBoard b
    → InRow slot
    → stones (drop_in owner slot b) ≡ stones b + 1
unfolding drop_in
stones-drop_in player_1 store b w h = omega arith
stones-drop_in player_2 store b w h = omega arith
stones-drop_in player_1 (pit i) b w h =
    omega (arith, sum-set b.pits.first i (get_or b.pits.first i 0 + 1) (omega (arith, w.first_row)))
stones-drop_in player_2 (pit i) b w h =
    omega
      (arith, sum-set b.pits.second i (get_or b.pits.second i 0 + 1) (omega (arith, w.second_row)))

-- Sowing n stones puts n stones on the board, and leaves a position on it.
pub record Sown (n : ℕ) (b : Board) (r : Position × Board) : Type 0 where
  board : IsBoard r.1
  row : InRow r.0.slot
  total : stones r.1 ≡ stones b + n

sow-Sown :
    (n : ℕ) (active : Player) (p : Position) (b : Board)
    → IsBoard b
    → InRow p.slot
    → Sown n b (sow n active p b)
unfolding sow
sow-Sown zero active p b w h = record { board = w; row = h; total = omega arith }
sow-Sown (suc n) active p b w h =
    let q = next_position p active in
    let hq = next_position-InRow p active h in
    let b' = drop_in q.owner q.slot b in
    let s = sow-Sown n active q b' (drop_in-IsBoard q.owner q.slot b w) hq in
    record {
      board = s.board;
      row = s.row;
      total = omega (arith, s.total, stones-drop_in q.owner q.slot b w hq);
    }

-- The capture moves stones and loses none.
module _ (i : ℕ) (b : Board) (w : IsBoard b) (h : i < 6) where
  capture_first :
      IsBoard (capture_at player_1 (pit i) b) × (stones (capture_at player_1 (pit i) b) ≡ stones b)
  unfolding capture_at
  capture_first = ground (
    arith,
    w.first_row,
    w.second_row,
    sum-set b.pits.second (5 - i) 0 (omega (arith, w.second_row)),
    sum-set b.pits.first i 0 (omega (arith, w.first_row)),
    length-set b.pits.first i 0,
    length-set b.pits.second (5 - i) 0,
  )

  capture_second :
      IsBoard (capture_at player_2 (pit i) b) × (stones (capture_at player_2 (pit i) b) ≡ stones b)
  unfolding capture_at
  capture_second = ground (
    arith,
    w.first_row,
    w.second_row,
    sum-set b.pits.first (5 - i) 0 (omega (arith, w.first_row)),
    sum-set b.pits.second i 0 (omega (arith, w.second_row)),
    length-set b.pits.second i 0,
    length-set b.pits.first (5 - i) 0,
  )

capture_at_lem :
    (player : Player) (slot : Slot) (b : Board)
    → IsBoard b
    → InRow slot
    → IsBoard (capture_at player slot b) × (stones (capture_at player slot b) ≡ stones b)
unfolding capture_at
capture_at_lem player_1 store b w h = (w, refl)
capture_at_lem player_2 store b w h = (w, refl)
capture_at_lem player_1 (pit i) b w h = capture_first i b w h
capture_at_lem player_2 (pit i) b w h = capture_second i b w h

finish_sowing_lem :
    (player : Player) (p : Position) (b : Board)
    → IsBoard b
    → InRow p.slot
    → IsBoard (finish_sowing player (p, b)).1 × (stones (finish_sowing player (p, b)).1 ≡ stones b)
unfolding finish_sowing
finish_sowing_lem player p b w h =
    elim (Bool-cases (same_player p.owner player && is_store p.slot)) [
      | inl e ↦ rw e (w, refl)
      | inr e ↦ rw e (elim (Bool-cases (same_player p.owner player)) [
        | inl k ↦ rw k (capture_at_lem player p.slot b w h)
        | inr k ↦ rw k (w, refl)
      ])
    ]

lift_pit_lem :
    (b : Board) (player : Player) (i : ℕ)
    → IsBoard b
    → i < 6
    → IsBoard (lift_pit b player i)
      × (stones (lift_pit b player i) + get_or (at_seat b.pits player) i 0 ≡ stones b)
unfolding lift_pit
lift_pit_lem b player_1 i w h = (
  ground (arith, length-set b.pits.first i 0),
  omega (arith, sum-set b.pits.first i 0 (omega (arith, w.first_row))),
)
lift_pit_lem b player_2 i w h = (
  ground (arith, length-set b.pits.second i 0),
  omega (arith, sum-set b.pits.second i 0 (omega (arith, w.second_row))),
)

-- A move keeps the two rows of six pits and the number of stones.
pub move_lem :
    (b : Board) (player : Player) (i : ℕ)
    → IsBoard b
    → i < 6
    → IsBoard (move b player i).1 × (stones (move b player i).1 ≡ stones b)
unfolding move
move_lem b player i w h =
    let n = get_or (at_seat b.pits player) i 0 in
    let lifted = lift_pit_lem b player i w h in
    let s = sow-Sown n player (at_slot player (pit i)) (lift_pit b player i) lifted.0 h in
    let r = sow n player (at_slot player (pit i)) (lift_pit b player i) in
    let f = finish_sowing_lem player r.0 r.1 s.board s.row in
    (f.0, omega (arith, f.1, s.total, lifted.1))

-- The sweep banks what is left.
sweep_lem : (b : Board) → IsBoard (sweep b) × (stones (sweep b) ≡ stones b)
unfolding sweep
sweep_lem b = (omega arith, omega arith)

pub settle_lem :
    (s : State) (active : Player) (b : Board)
    → IsBoard b
    → IsBoard (settle s (active, b)).public_state
      × (stones (settle s (active, b)).public_state ≡ stones b)
unfolding settle
settle_lem s active b w = elim (Bool-cases (side_empty b)) [
  | inl e ↦ rw e (sweep_lem b)
  | inr e ↦ rw e (w, refl)
]
