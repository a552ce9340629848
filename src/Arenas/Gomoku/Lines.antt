-- ===== src/Arenas/Gomoku/Lines.antt =====
-- `_has_line` of src/eslams/arenas/gomoku.py finds the lines of five through a stone.
use e_slams.Prelude.{
  Any, Bool, Bool-cases, List, Option, Option-cases, [], any, ap, ap₂, arith, false, guarded_some,
  if◌then◌else◌, inl, inr, leb, leb→le, ltb, none, refl, some, some-injective, suc, sym, true, zero,
  ||_split, ℕ, ◌&&◌, ◌+◌, ◌-◌, ◌<◌, ◌↔◌, ◌∙◌, ◌∷◌, ◌≡◌, ◌≤◌,
}
use e_slams.Arena.{Player}
use e_slams.Arenas.Stones.{Board, Delta, back, cell, holds, on, stay, step}
use e_slams.Arenas.Gomoku.{
  count_from, count_line, directions, has_line, next_stone, opposite, size, target,
}

-- A coordinate `i` steps along.
abbrev pub along : Delta → ℕ → ℕ → Option ℕ
along back n i = if leb i n then some (n - i) else none
along stay n i = some n
along on n i = some (n + i)

abbrev pub stone_on : Board → Player → Option ℕ → Option ℕ → Bool
stone_on board stone (some row) (some col) =
    ltb row size && ltb col size && holds (cell board row col) stone
stone_on board stone _ _ = false

-- The cell `i` steps along is on the board and holds the stone.
abbrev pub stone_along : Board → Player → ℕ → ℕ → Delta × Delta → ℕ → Bool
stone_along board stone row col d i = stone_on board stone (along d.0 row i) (along d.1 col i)

-- The next `k` cells along all hold the stone.
abbrev pub Run : Board → Player → ℕ → ℕ → Delta × Delta → ℕ → Type 0
Run board stone row col d k = (i : ℕ) → i < k → stone_along board stone row col d (suc i) ≡ true

-- Five cells in a row hold the stone, with `k` of them ahead of the cell and the rest behind it.
abbrev pub LineAlong : Board → ℕ → ℕ → Player → Delta × Delta → Type 0
LineAlong board row col stone d =
    (k : ℕ) × (k ≤ 4)
    × Run board stone row col d k
    × Run board stone row col (opposite d.0, opposite d.1) (4 - k)

abbrev pub IsLine : Board → ℕ → ℕ → Player → Type 0
IsLine board row col stone = Any (LineAlong board row col stone) directions

any-Any :
    {A : Type 0} (p : A → Bool) (P : A → Type 0) (xs : List A)
    → ((x : A) → (p x ≡ true) ↔ P x)
    → (any p xs ≡ true) ↔ Any P xs
any-Any p P [] h = (λ e. absurd cc, λ bad. absurd bad)
any-Any p P (x ∷ xs) h =
    let (rest, back_rest) = any-Any p P xs h in
    (
      λ e. elim (||_split (p x) _ e) [ inl q ↦ inl ((h x).0 q) | inr q ↦ inr (rest q) ],
      λ z. elim z [
        | inl q ↦ let here = (h x).1 q in rw here refl
        | inr q ↦ let there = back_rest q in ground arith
      ],
    )

back_shift :
    (n i : ℕ)
    → (if leb i n then some (n - i) else none)
      ≡ (if leb (suc i) (suc n) then some (suc n - suc i) else none)
back_shift n i = elim (Bool-cases (leb i n)) [
  | inl q ↦ let q' : leb (suc i) (suc n) ≡ true = ground arith in rw (q, q') (ap some (omega arith))
  | inr q ↦ let q' : leb (suc i) (suc n) ≡ false = ground arith in rw (q, q') refl
]

along-step : (d : Delta) (n m i : ℕ) → step d n ≡ some m → along d m i ≡ along d n (suc i)
along-step back zero m i h = absurd cc
along-step back (suc n) m i h = let e : n ≡ m = some-injective n m h in rw (← e) (back_shift n i)
along-step stay n m i h = sym h
along-step on n m i h =
    let e : suc n ≡ m = some-injective (suc n) m h in rw (← e) (ap some (omega arith))

along-one : (d : Delta) (n : ℕ) → along d n 1 ≡ step d n
along-one back zero = refl
along-one back (suc n) = let q : leb 1 (suc n) ≡ true = ground arith in rw q (ap some (omega arith))
along-one stay n = refl
along-one on n = ap some (omega arith)

-- The step that `count_from` tries is the first of a run.
next_stone-none :
    (board : Board) (stone : Player) (r c : Option ℕ)
    → next_stone board stone r c ≡ none
    → stone_on board stone r c ≡ false
next_stone-none board stone none c h = refl
next_stone-none board stone (some r) none h = refl
next_stone-none board stone (some r) (some c) h = ground arith

next_stone-some :
    (board : Board) (stone : Player) (r c : Option ℕ) (row col : ℕ)
    → next_stone board stone r c ≡ some (row, col)
    → (r ≡ some row) × (c ≡ some col) × (stone_on board stone r c ≡ true)
next_stone-some board stone none c row col h = absurd cc
next_stone-some board stone (some r) none row col h = absurd cc
next_stone-some board stone (some r) (some c) row col h =
    let (ok, e) = guarded_some _ _ h in (ap (λ p. some p.0) e, ap (λ p. some p.1) e, ok)

module _ (board : Board) (stone : Player) (d : Delta × Delta) where
  next : ℕ → ℕ → Option (ℕ × ℕ)
  next row col = next_stone board stone (step d.0 row) (step d.1 col)

  first_along :
      (row col : ℕ)
      → stone_along board stone row col d 1 ≡ stone_on board stone (step d.0 row) (step d.1 col)
  first_along row col = ap₂ (stone_on board stone) (along-one d.0 row) (along-one d.1 col)

  shifted :
      (row col r c : ℕ) (i : ℕ)
      → step d.0 row ≡ some r
      → step d.1 col ≡ some c
      → stone_along board stone r c d i ≡ stone_along board stone row col d (suc i)
  shifted row col r c i u v =
      ap₂ (stone_on board stone) (along-step d.0 row r i u) (along-step d.1 col c i v)

  -- A run of one stone more.
  longer :
      (row col r c k : ℕ)
      → step d.0 row ≡ some r
      → step d.1 col ≡ some c
      → stone_along board stone row col d 1 ≡ true
      → Run board stone r c d k
      → Run board stone row col d (suc k)
  longer row col r c k u v first run zero lt = first
  longer row col r c k u v first run (suc i) lt =
      sym (shifted row col r c (suc i) u v) ∙ run i (omega arith)

  stopped :
      (fuel row col : ℕ)
      → next row col ≡ none
      → count_from (suc fuel) board row col d.0 d.1 stone ≡ 0
  unfolding count_from next
  stopped fuel row col q = rw (q, count_from) refl

  went_on :
      (fuel row col r c : ℕ)
      → next row col ≡ some (r, c)
      → count_from (suc fuel) board row col d.0 d.1 stone
        ≡ suc (count_from fuel board r c d.0 d.1 stone)
  unfolding count_from next
  went_on fuel row col r c q = rw (q, count_from) refl

  -- The count reaches `k` exactly where a run of `k` stones starts.
  pub count-Run :
      (fuel k row col : ℕ)
      → k ≤ fuel
      → (k ≤ count_from fuel board row col d.0 d.1 stone) ↔ Run board stone row col d k
  unfolding next
  count-Run fuel zero row col le = (λ _ i lt. absurd (omega arith), λ _. omega arith)
  count-Run zero (suc k) row col le = absurd (omega arith)
  count-Run (suc fuel) (suc k) row col le = elim (Option-cases (next row col)) [
    | inl q ↦
        let none_left = stopped fuel row col q in
        let first : stone_along board stone row col d 1 ≡ false =
          first_along row col ∙ next_stone-none board stone (step d.0 row) (step d.1 col) q in
        (λ h. absurd (omega arith), λ run. absurd (let bad = sym first ∙ run 0 (omega arith) in cc))
    | inr ((r, c), q) ↦
        let (u, v, ok) = next_stone-some board stone (step d.0 row) (step d.1 col) r c q in
        let more = went_on fuel row col r c q in
        let (to_run, to_count) = count-Run fuel k r c (omega arith) in
        (
          λ h. longer row col r c k u v (first_along row col ∙ ok) (to_run (omega arith)),
          λ run.
              let rest =
                to_count (λ i lt. shifted row col r c (suc i) u v ∙ run (suc i) (omega arith)) in
              omega arith,
        )
  ]

-- Five in all, with as many ahead as there are, up to four.
split_five :
    (f b : ℕ) → (leb target (1 + f + b) ≡ true) ↔ ((k : ℕ) × (k ≤ 4) × (k ≤ f) × (4 - k ≤ b))
split_five f b = (
  λ h. elim (Bool-cases (leb 4 f)) [
    | inl q ↦ (4, omega arith, leb→le 4 f q, omega arith)
    | inr q ↦ let less : f ≤ 4 = ground arith in (f, less, omega arith, ground arith)
  ],
  λ (k, le, ahead, behind). let five : 5 ≤ 1 + f + b = omega arith in ground arith,
)

-- The test for a win is right: it holds exactly where five cells in a row through the stone's cell,
-- along one of the four directions and on the board, hold the stone of that seat, that cell itself
-- taken as given.
pub has_line_lem :
    (board : Board) (row col : ℕ) (stone : Player)
    → (has_line board row col stone ≡ true) ↔ IsLine board row col stone
unfolding has_line count_line
has_line_lem board row col stone =
    any-Any
      (λ d. leb target (
        1
        + count_line board row col d.0 d.1 stone
        + count_line board row col (opposite d.0) (opposite d.1) stone))
      (LineAlong board row col stone) directions
      (λ d.
        let f = count_line board row col d.0 d.1 stone in
        let b = count_line board row col (opposite d.0) (opposite d.1) stone in
        let (to_split, to_five) = split_five f b in
        (
          λ h.
              let (k, le, ahead, behind) = to_split h in
              (
                k,
                le,
                (count-Run board stone d size k row col (omega arith)).0 ahead,
                (count-Run board stone (opposite d.0, opposite d.1) size (4 - k) row col
                      (omega arith)).0
                    behind,
              ),
          λ (k, le, ahead, behind). to_five (
            k,
            le,
            (count-Run board stone d size k row col (omega arith)).1 ahead,
            (count-Run board stone (opposite d.0, opposite d.1) size (4 - k) row col
                  (omega arith)).1
                behind,
          ),
        ))
