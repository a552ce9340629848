-- ===== src/Arenas/Hex/Fuel.antt =====
-- The loop of `_connected` of src/eslams/arenas/hex.py ends: its fuel does.
use e_slams.Prelude.{
  &&_split, Any, Any-append_left, Any-append_right, Any-map, Bool-cases, List, Option, [], ap,
  arith, count_if, count_if-length, count_if-lt, false, if_rule, inl, inr, length, length-append,
  ltb, ltb→lt, map, none, not, range, range_from-Any, refl, some, subst, suc, true, zero, ℕ, ◌&&◌,
  ◌*◌, ◌++◌, ◌+◌, ◌<◌, ◌∷◌, ◌≡◌, ◌≢◌, ◌≤◌,
}
use e_slams.Arena.{Player}
use e_slams.Arenas.Stones.{Board, Cell, Delta, neighbor}
use e_slams.Arenas.Hex.{
  Frontier, connected, edge_cell, edge_stones, has_stone, neighbors, reaches_target, same_cell,
  search, seen_in, size, stones_of, visit, visit_all,
}

abbrev row_of : List ℕ → ℕ → List Cell
row_of cs r = map (λ c. (r, c)) cs

abbrev cells_of : List ℕ → List ℕ → List Cell
cells_of [] cs = []
cells_of (r ∷ rs) cs = row_of cs r ++ cells_of rs cs

all_cells : List Cell
all_cells = cells_of (range size) (range size)

row_of-Any : (cs : List ℕ) (r c : ℕ) → Any (λ j. j ≡ c) cs → Any (λ x. x ≡ (r, c)) (row_of cs r)
row_of-Any [] r c h = absurd h
row_of-Any (x ∷ cs) r c h = elim h [
  | inl e ↦ inl (ap (λ j. (r, j)) e)
  | inr later ↦ inr (row_of-Any cs r c later)
]

cells_of-Any :
    (rs cs : List ℕ) (r c : ℕ)
    → Any (λ j. j ≡ r) rs
    → Any (λ j. j ≡ c) cs
    → Any (λ x. x ≡ (r, c)) (cells_of rs cs)
cells_of-Any [] cs r c h k = absurd h
cells_of-Any (x ∷ rs) cs r c h k = elim h [
  | inl e ↦
      Any-append_left _ (row_of cs x) (cells_of rs cs)
        (subst (λ z. Any (λ y. y ≡ (z, c)) (row_of cs x)) e (row_of-Any cs x c k))
  | inr later ↦ Any-append_right _ (row_of cs x) (cells_of rs cs) (cells_of-Any rs cs r c later k)
]

all_cells-Any : (r c : ℕ) → r < size → c < size → Any (λ x. x ≡ (r, c)) all_cells
unfolding all_cells
all_cells-Any r c h k =
    cells_of-Any (range size) (range size) r c (range_from-Any 0 size r (omega arith) (omega arith))
      (range_from-Any 0 size c (omega arith) (omega arith))

pub same_cell_self : (p : Cell) → same_cell p p ≡ true
same_cell_self p = ground arith

abbrev unseen : List Cell → ℕ
unseen seen = count_if (λ x. not (seen_in x seen)) all_cells

-- The work left: what is queued, and what may still be.
abbrev work : Frontier → ℕ
work f = length f.queue + unseen f.seen

length-all_cells : length all_cells ≡ 121
unfolding all_cells
length-all_cells = refl

unseen-le : (seen : List Cell) → unseen seen ≤ 121
unseen-le seen =
    subst (λ n. unseen seen ≤ n) length-all_cells
      (count_if-length (λ x. not (seen_in x seen)) all_cells)

unseen-cons :
    (q : Cell) (seen : List Cell)
    → q.0 < size
    → q.1 < size
    → seen_in q seen ≡ false
    → unseen (q ∷ seen) < unseen seen
unseen-cons q seen h k new =
    count_if-lt (λ x. not (seen_in x (q ∷ seen))) (λ x. not (seen_in x seen)) all_cells
      (λ x e. ground arith)
      (Any-map (λ x. x ≡ q)
        (λ x. (not (seen_in x seen) ≡ true) × (not (seen_in x (q ∷ seen)) ≡ false)) all_cells
        (λ x e. let self = same_cell_self q in rw e (rw new refl, rw self refl))
        (all_cells-Any q.0 q.1 h k))

module _ (board : Board) (stone : Player) where
  visit-work : (f : Frontier) (o : Option Cell) → work (visit board stone f o) ≤ work f
  visit-work f none = omega arith
  visit-work f (some q) =
      if_rule {A = Frontier} (λ g. work g ≤ work f)
        (not (seen_in q f.seen) && has_stone board stone q)
        (λ e.
          let (new, has) = &&_split (not (seen_in q f.seen)) _ e in
          let (inside, _) = &&_split _ _ has in
          let (high, wide) = &&_split (ltb q.0 size) _ inside in
          let unknown : seen_in q f.seen ≡ false = ground arith in
          let less = unseen-cons q f.seen (ltb→lt _ _ high) (ltb→lt _ _ wide) unknown in
          let longer = length-append f.queue (q ∷ []) in omega arith)
        (λ _. omega arith)

  visit_all-work :
      (p : Cell) (ds : List (Delta × Delta)) (f : Frontier)
      → work (visit_all board stone p ds f) ≤ work f
  unfolding visit_all
  visit_all-work p [] f = omega arith
  visit_all-work p (d ∷ ds) f =
      let first = visit-work f (neighbor p d) in
      let rest = visit_all-work p ds (visit board stone f (neighbor p d)) in omega arith

  search_ends :
      (fuel : ℕ) (queue seen : List Cell)
      → length queue + unseen seen < fuel
      → search fuel board stone queue seen ≢ none
  unfolding search
  search_ends zero queue seen h = absurd (omega arith)
  search_ends (suc fuel) [] seen h = λ e. cc
  search_ends (suc fuel) (p ∷ queue) seen h = elim (Bool-cases (reaches_target stone p)) [
    | inl q ↦ rw q (λ e. cc)
    | inr q ↦
        let less = visit_all-work p neighbors (record { queue = queue; seen = seen }) in
        rw q (search_ends fuel _ _ (omega arith))
  ]

  length-stones_of : (ps : List Cell) → length (stones_of board stone ps) ≤ length ps
  length-stones_of [] = omega arith
  length-stones_of (p ∷ ps) = let rest = length-stones_of ps in ground arith

  -- The search ends on every board.
  pub connected-ends : connected board stone ≢ none
  unfolding connected
  connected-ends =
      let edge : length (edge_stones board stone) ≤ 11 =
        length-stones_of (map (edge_cell stone) (range size)) in
      let rest = unseen-le (edge_stones board stone) in
      search_ends (size * size + size + 1) (edge_stones board stone) (edge_stones board stone)
        (omega arith)
