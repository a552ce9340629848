-- ===== src/Arenas/Othello/Legal.antt =====
-- What is legal in Othello: the placements that flip a disc, or to pass where there is none.
use e_slams.Prelude.{
  All, All-Any, All-append, Any, Bool, List, [], any, false, if_rule, if◌then◌else◌, inl, inr, map,
  range, refl, subst, sym, true, ||_split, ℕ, ◌∷◌, ◌≡◌,
}
use e_slams.Prelude.Int.{int_eq_iff, pos}
use e_slams.Json.{Json, same_json_action}
use e_slams.Json.Equality.{IsPlain, same_json_action-eq}
use e_slams.Arena.{Player, at_seat, is_legal, only_for, player_1, player_2}
use e_slams.Arena.Legality.{listed}
use e_slams.Arenas.Stones.{Board, Cell}
use e_slams.Arenas.Othello.{
  OthelloState, flips, is_path, or_pass, pair_action, pass, placements, placements_in,
  row_placements, size,
}

pair_action-IsPlain : (p : Cell) → IsPlain (pair_action p)
unfolding IsPlain
pair_action-IsPlain p = (tt, (tt, tt))

pass-IsPlain : IsPlain pass
unfolding IsPlain
pass-IsPlain = tt

pub pair_action_self : (p : Cell) → same_json_action (pair_action p) (pair_action p) ≡ true
unfolding same_json_action
pair_action_self p =
    let a = (int_eq_iff (pos p.0) (pos p.0)).1 refl in
    let b = (int_eq_iff (pos p.1) (pos p.1)).1 refl in rw (a, b) refl

any-pair_action :
    (a : Json) (ps : List Cell)
    → any (λ c. same_json_action a c) (map pair_action ps) ≡ true
    → Any (λ p. a ≡ pair_action p) ps
any-pair_action a [] h = absurd cc
any-pair_action a (p ∷ ps) h = elim (||_split (same_json_action a (pair_action p)) _ h) [
  | inl e ↦ inl (same_json_action-eq a (pair_action p) (pair_action-IsPlain p) e)
  | inr later ↦ inr (any-pair_action a ps later)
]

row_placements-All :
    (board : Board) (disc : Player) (row : ℕ) (cols : List ℕ)
    → All (λ p. is_path (flips board p disc) ≡ true) (row_placements board disc row cols)
unfolding row_placements
row_placements-All board disc row [] = tt
row_placements-All board disc row (col ∷ cols) =
    let rest = row_placements-All board disc row cols in
    if_rule (All (λ p. is_path (flips board p disc) ≡ true)) (is_path (flips board (row, col) disc))
      (λ e. (e, rest)) (λ _. rest)

placements_in-All :
    (board : Board) (disc : Player) (rows : List ℕ)
    → All (λ p. is_path (flips board p disc) ≡ true) (placements_in board disc rows)
unfolding placements_in
placements_in-All board disc [] = tt
placements_in-All board disc (row ∷ rows) =
    All-append _ (row_placements board disc row (range size)) (placements_in board disc rows)
      (row_placements-All board disc row (range size)) (placements_in-All board disc rows)

-- Every placement that is listed flips a disc.
pub placements-All :
    (board : Board) (disc : Player)
    → All (λ p. is_path (flips board p disc) ≡ true) (placements board disc)
unfolding placements
placements-All board disc = placements_in-All board disc (range size)

abbrev pub listed_actions : Board → Player → List Json
listed_actions board disc = or_pass (map pair_action (placements board disc))

-- A move: to pass where no placement is listed, or a placement that flips a disc.
pub data Move (board : Board) (disc : Player) : Json → Type 0 where
  passes : placements board disc ≡ [] → Move board disc pass
  places : (p : Cell) → is_path (flips board p disc) ≡ true → Move board disc (pair_action p)

listed-Move :
    (board : Board) (disc : Player) (a : Json) (ps : List Cell)
    → placements board disc ≡ ps
    → All (λ p. is_path (flips board p disc) ≡ true) ps
    → any (λ c. same_json_action a c) (or_pass (map pair_action ps)) ≡ true
    → Move board disc a
listed-Move board disc a [] none_listed all_flip h =
    let e : same_json_action a pass ≡ true = elim (||_split (same_json_action a pass) false h) [
      | inl q ↦ q
      | inr q ↦ absurd cc
    ] in
    subst (Move board disc) (sym (same_json_action-eq a pass pass-IsPlain e)) (passes none_listed)
listed-Move board disc a (p ∷ ps) listed all_flip h =
    let (q, flip, same) = All-Any _ _ (p ∷ ps) all_flip (any-pair_action a (p ∷ ps) h) in
    subst (Move board disc) (sym same) (places q flip)

seated_listed :
    (p active : Player) (over : Bool) (legal : List Json) (a : Json)
    → any (λ c. same_json_action a c) (at_seat (only_for active (if over then [] else legal)) p)
      ≡ true
    → (p ≡ active) × (over ≡ false) × (any (λ c. same_json_action a c) legal ≡ true)
seated_listed player_1 player_1 false legal a h = (refl, refl, h)
seated_listed player_2 player_2 false legal a h = (refl, refl, h)
seated_listed player_1 player_1 true legal a h = absurd cc
seated_listed player_2 player_2 true legal a h = absurd cc
seated_listed player_1 player_2 over legal a h = absurd cc
seated_listed player_2 player_1 over legal a h = absurd cc

-- The legal actions of a state, for the seat that moves, until the end.
abbrev pub IsListed : OthelloState → Type 0
IsListed s =
    s.legal_actions_by_player
    ≡ only_for s.active_player
        (if s.terminal then [] else listed_actions s.public_state s.active_player)

pub legal-Move :
    (s : OthelloState) (player : Player) (a : Json)
    → IsListed s
    → is_legal s player a ≡ true
    → (player ≡ s.active_player) × (s.terminal ≡ false) × Move s.public_state s.active_player a
unfolding is_legal
legal-Move s player a listed h =
    let h' = rw listed at h in
    let (seat, going, found) =
      seated_listed player s.active_player s.terminal
        (listed_actions s.public_state s.active_player) a h' in
    (
      seat,
      going,
      listed-Move s.public_state s.active_player a (placements s.public_state s.active_player) refl
          (placements-All s.public_state s.active_player) found,
    )
