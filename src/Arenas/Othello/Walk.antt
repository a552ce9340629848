-- ===== src/Arenas/Othello/Walk.antt =====
-- The loop of `_flips` of src/eslams/arenas/othello.py ends by its own test: its fuel does.
use e_slams.Prelude.{
  &&_split, All, Bool, Bool-cases, List, Option, [], ap, arith, false, inl, inr, ltb, ltb→lt, none,
  refl, some, some-injective, suc, true, zero, ℕ, ◌++◌, ◌+◌, ◌-◌, ◌<◌, ◌∷◌, ◌≡◌, ◌≤◌, ◌⊎◌,
}
use e_slams.Arena.{Player}
use e_slams.Arenas.Othello.{directions, has_disc, inside, size, walk}
use e_slams.Arenas.Stones.{Board, Cell, Delta, back, both, neighbor, on, stay, step}

-- The steps that are left on the board for a coordinate that changes.
abbrev room : Delta → ℕ → ℕ
room back n = n + 1
room stay n = 0
room on n = size - n

abbrev room_left : Delta × Delta → Cell → ℕ
room_left (stay, d) p = room d p.1
room_left (d, _) p = room d p.0

-- A direction that moves.
abbrev pub moves : Delta × Delta → Bool
moves (stay, stay) = false
moves _ = true

step-room :
    (d : Delta) (n m : ℕ) → n < size → step d n ≡ some m → room d m + 1 ≤ room d n ⊎ (d ≡ stay)
step-room back zero m h e = absurd cc
step-room back (suc n) m h e =
    let same : n ≡ m = some-injective n m e in inl (rw (← same) (omega arith))
step-room stay n m h e = inr refl
step-room on n m h e =
    let same : suc n ≡ m = some-injective (suc n) m e in inl (rw (← same) (omega arith))

room_left-inside :
    (d : Delta × Delta) (p : Cell)
    → moves d ≡ true
    → inside p ≡ true
    → (0 < room_left d p) × (room_left d p ≤ size)
room_left-inside d p moving within =
    let (high, wide) = &&_split (ltb p.0 size) _ within in
    by_case d.0 d.1 moving (ltb→lt _ _ high) (ltb→lt _ _ wide)
  where
    by_case :
        (a b : Delta)
        → moves (a, b) ≡ true
        → p.0 < size
        → p.1 < size
        → (0 < room_left (a, b) p) × (room_left (a, b) p ≤ size)
    by_case back b m h k = (omega arith, omega arith)
    by_case on b m h k = (omega arith, omega arith)
    by_case stay back m h k = (omega arith, omega arith)
    by_case stay on m h k = (omega arith, omega arith)
    by_case stay stay m h k = absurd cc

both-some : (a b : Option ℕ) (q : Cell) → both a b ≡ some q → (a ≡ some q.0) × (b ≡ some q.1)
both-some none b q h = absurd cc
both-some (some r) none q h = absurd cc
both-some (some r) (some c) q h = let e = some-injective _ _ h in rw (← e) (refl, refl)

neighbor-room :
    (d : Delta × Delta) (p q : Cell)
    → moves d ≡ true
    → inside p ≡ true
    → neighbor p d ≡ some q
    → room_left d q + 1 ≤ room_left d p
neighbor-room d p q moving within next =
    let (high, wide) = &&_split (ltb p.0 size) _ within in
    let (row, col) = both-some (step d.0 p.0) (step d.1 p.1) q next in
    by_case d.0 d.1 moving (ltb→lt _ _ high) (ltb→lt _ _ wide) row col
  where
    by_case :
        (a b : Delta)
        → moves (a, b) ≡ true
        → p.0 < size
        → p.1 < size
        → step a p.0 ≡ some q.0
        → step b p.1 ≡ some q.1
        → room_left (a, b) q + 1 ≤ room_left (a, b) p
    by_case back b m h k u v = elim (step-room back p.0 q.0 h u) [ inl x ↦ x | inr bad ↦ absurd cc ]
    by_case on b m h k u v = elim (step-room on p.0 q.0 h u) [ inl x ↦ x | inr bad ↦ absurd cc ]
    by_case stay back m h k u v = elim (step-room back p.1 q.1 k v) [
      | inl x ↦ x
      | inr bad ↦ absurd cc
    ]
    by_case stay on m h k u v = elim (step-room on p.1 q.1 k v) [ inl x ↦ x | inr bad ↦ absurd cc ]
    by_case stay stay m h k u v = absurd cc

-- The cell that the loop ends at, where it ends on one, does not hold a disc of the opponent.
walk-ends :
    (fuel : ℕ) (board : Board) (opponent : Player) (d : Delta × Delta) (o : Option Cell)
    (path : List Cell)
    → moves d ≡ true
    → ((p : Cell) → o ≡ some p → inside p ≡ true → room_left d p ≤ fuel)
    → (q : Cell) → (walk fuel board opponent d o path).1 ≡ some q
    → has_disc board opponent q ≡ false
unfolding walk
walk-ends zero board opponent d none path moving enough q h = absurd cc
walk-ends (suc fuel) board opponent d none path moving enough q h = absurd cc
walk-ends zero board opponent d (some p) path moving enough q h =
    let same = some-injective p q h in
    elim (Bool-cases (has_disc board opponent q)) [
      | inr e ↦ e
      | inl e ↦
          let within : inside q ≡ true = (&&_split (inside q) _ e).0 in
          let some_room = (room_left-inside d q moving within).0 in
          let no_room = enough q (ap some same) within in absurd (omega arith)
    ]
walk-ends (suc fuel) board opponent d (some p) path moving enough q h =
    elim (Bool-cases (has_disc board opponent p)) [
      | inr e ↦
          let stopped : some p ≡ some q = rw e at h in
          let same = some-injective p q stopped in rw (← same) e
      | inl e ↦
          let within : inside p ≡ true = (&&_split (inside p) _ e).0 in
          let most = enough p refl within in
          walk-ends fuel board opponent d (neighbor p d) (path ++ p ∷ []) moving
            (λ r next _. let less = neighbor-room d p r moving within next in omega arith) q
            (rw e at h)
    ]

-- In each of the eight directions the loop over the opponent's discs, from a cell of the board,
-- ends by its own test and never for want of fuel.
pub flips-end :
    (board : Board) (p : Cell) (opponent : Player)
    → All
        (λ d.
          (q : Cell)
          → (walk size board opponent d (neighbor p d) []).1 ≡ some q
          → has_disc board opponent q ≡ false)
        directions
flips-end board p opponent = (
  along (back, back) refl,
  (
    along (back, stay) refl,
    (
      along (back, on) refl,
      (
        along (stay, back) refl,
        (
          along (stay, on) refl,
          (along (on, back) refl, (along (on, stay) refl, (along (on, on) refl, tt))),
        ),
      ),
    ),
  ),
)
  where
    along :
        (d : Delta × Delta)
        → moves d ≡ true
        → (q : Cell) → (walk size board opponent d (neighbor p d) []).1 ≡ some q
        → has_disc board opponent q ≡ false
    along d moving q h =
        walk-ends size board opponent d (neighbor p d) [] moving
          (λ r _ within. (room_left-inside d r moving within).1) q h
