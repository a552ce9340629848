-- ===== src/Arenas/Othello/Playable.antt =====
-- `_legal_actions` of src/eslams/arenas/othello.py lists every placement that flips a disc, and a
-- pass where there is none.
use e_slams.Prelude.{
  &&_split, All, Any, Any-append_left, Any-append_right, Bool-cases, List, [], any, ap, arith, inl,
  inr, ltb, ltb→lt, map, range, range_from-Any, refl, subst, true, ℕ, ◌∷◌, ◌≡◌, ◌⊎◌,
}
use e_slams.Json.{Json, same_json_action}
use e_slams.Arena.{Player}
use e_slams.Arenas.Stones.{Board, Cell}
use e_slams.Arenas.Othello.{
  flips, inside, is_path, or_pass, pair_action, pass, placements, placements_in, row_placements,
  size,
}
use e_slams.Arenas.Othello.Legal.{Move, pair_action_self, passes, placements-All, places}

-- A placement on the cell flips a disc.
abbrev pub Flips : Board → Player → Cell → Type 0
Flips board disc p = is_path (flips board p disc) ≡ true

-- A placement that flips a disc, or a pass where no cell has one.
abbrev pub IsPlayable : Board → Player → Json → Type 0
IsPlayable board disc a =
    ((p : Cell) × (a ≡ pair_action p) × Flips board disc p)
    ⊎ ((a ≡ pass) × ((p : Cell) → ¬ Flips board disc p))

module _ (board : Board) (disc : Player) where
  Flips-inside : (p : Cell) → Flips board disc p → inside p ≡ true
  unfolding flips
  Flips-inside p f = elim (Bool-cases (inside p)) [
    | inl e ↦ e
    | inr e ↦ absurd (let bad = rw e at f in cc)
  ]

  row_placements-Any :
      (row col : ℕ) (cols : List ℕ)
      → Any (λ c. c ≡ col) cols
      → Flips board disc (row, col)
      → Any (λ q. q ≡ (row, col)) (row_placements board disc row cols)
  unfolding row_placements
  row_placements-Any row col [] among f = absurd among
  row_placements-Any row col (c ∷ cols) among f =
      elim (Bool-cases (is_path (flips board (row, c) disc))) [
        | inl q ↦ rw q (elim among [
          | inl here ↦ inl (ap (λ z. (row, z)) here)
          | inr later ↦ inr (row_placements-Any row col cols later f)
        ])
        | inr q ↦ rw q (elim among [
          | inl here ↦ absurd (let bad = rw here at q in cc)
          | inr later ↦ row_placements-Any row col cols later f
        ])
      ]

  placements_in-Any :
      (row col : ℕ) (rows : List ℕ)
      → Any (λ r. r ≡ row) rows
      → Any (λ c. c ≡ col) (range size)
      → Flips board disc (row, col)
      → Any (λ q. q ≡ (row, col)) (placements_in board disc rows)
  unfolding placements_in
  placements_in-Any row col [] among wide f = absurd among
  placements_in-Any row col (r ∷ rows) among wide f = elim among [
    | inl here ↦
        Any-append_left _ (row_placements board disc r (range size)) _
          (rw here (row_placements-Any row col (range size) wide f))
    | inr later ↦
        Any-append_right _ (row_placements board disc r (range size)) _
          (placements_in-Any row col rows later wide f)
  ]

  -- Every placement that flips a disc is listed.
  placements-Any : (p : Cell) → Flips board disc p → Any (λ q. q ≡ p) (placements board disc)
  unfolding placements
  placements-Any (row, col) f =
      let (a, b) = &&_split (ltb row size) _ (Flips-inside (row, col) f) in
      placements_in-Any row col (range size)
        (range_from-Any 0 size row (omega arith) (let lt = ltb→lt row size a in omega arith))
        (range_from-Any 0 size col (omega arith) (let lt = ltb→lt col size b in omega arith)) f

  pub Move-IsPlayable : (a : Json) → Move board disc a → IsPlayable board disc a
  Move-IsPlayable a (places p f) = inl (p, refl, f)
  Move-IsPlayable a (passes none_listed) =
      inr (refl, λ p f. subst (Any (λ q. q ≡ p)) none_listed (placements-Any p f))

  among-listed :
      (p : Cell) (ps : List Cell)
      → Any (λ q. q ≡ p) ps
      → any (λ c. same_json_action (pair_action p) c) (map pair_action ps) ≡ true
  among-listed p [] among = absurd among
  among-listed p (q ∷ ps) among = elim among [
    | inl here ↦ let self = pair_action_self p in rw (here, self) refl
    | inr later ↦
        let rest = among-listed p ps later in
        elim (Bool-cases (same_json_action (pair_action p) (pair_action q))) [
          | inl e ↦ rw e refl
          | inr e ↦ rw e rest
        ]
  ]

  or_pass-listed :
      (a : Json) (actions : List Json)
      → any (λ c. same_json_action a c) actions ≡ true
      → any (λ c. same_json_action a c) (or_pass actions) ≡ true
  or_pass-listed a [] h = absurd cc
  or_pass-listed a (x ∷ actions) h = h

  none_listed :
      (ps : List Cell) → All (Flips board disc) ps → ((p : Cell) → ¬ Flips board disc p) → ps ≡ []
  none_listed [] all_flip nowhere = refl
  none_listed (p ∷ ps) (f, _) nowhere = absurd (nowhere p f)

  pass_self : same_json_action pass pass ≡ true
  unfolding same_json_action
  pass_self = refl

  pub IsPlayable-listed :
      (a : Json)
      → IsPlayable board disc a
      → any (λ c. same_json_action a c) (or_pass (map pair_action (placements board disc))) ≡ true
  IsPlayable-listed a (inl (p, same, f)) =
      rw same (or_pass-listed (pair_action p) _ (among-listed p _ (placements-Any p f)))
  IsPlayable-listed a (inr (same, nowhere)) =
      let empty = none_listed (placements board disc) (placements-All board disc) nowhere in
      let self = pass_self in rw (same, empty, self) refl
