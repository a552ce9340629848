-- ===== src/Arenas/Hex/Complete.antt =====
-- The search of src/eslams/arenas/hex.py misses no chain of stones.
use e_slams.Prelude.{
  &&_split, ==_iff, Any, Bool, Bool-cases, List, Option, Option-cases, [], ap, ap₂, arith, false,
  if_rule, inl, inr, map, none, not, range, range_from-Any, refl, some, subst, suc, sym, true, zero,
  ||_split, ℕ, ◌&&◌, ◌*◌, ◌++◌, ◌+◌, ◌==◌, ◌||◌, ◌∷◌, ◌≡◌, ◌⊎◌,
}
use e_slams.Arena.{Player}
use e_slams.Arenas.Stones.{Board, Cell, Delta, cell, holds, neighbor}
use e_slams.Arenas.Hex.{
  Frontier, connected, edge_cell, edge_stones, has_stone, neighbors, reaches_target, same_cell,
  search, seen_in, size, stones_of, visit, visit_all,
}
use e_slams.Arenas.Hex.Search.{IsNeighbor, Joined, Reached, connected-Joined, from_edge, onward}
use e_slams.Arenas.Hex.Fuel.{connected-ends, same_cell_self}

abbrev Seen : Cell → List Cell → Type 0
Seen p seen = seen_in p seen ≡ true

seen_append : (x : Cell) (xs ys : List Cell) → seen_in x (xs ++ ys) ≡ (seen_in x xs || seen_in x ys)
seen_append x [] ys = refl
seen_append x (y ∷ xs) ys = let rest = seen_append x xs ys in ground arith

same_cell_eq : (p q : Cell) → same_cell p q ≡ true → p ≡ q
same_cell_eq (a, b) (c, d) h =
    let (u, v) = &&_split (a == c) _ h in ap₂ (λ x y. (x, y)) ((==_iff a c).0 u) ((==_iff b d).0 v)

-- What a visit of neighbours keeps, and where what is new stands.
record IsVisit (f g : Frontier) : Type 0 where
  keeps_seen : (x : Cell) → Seen x f.seen → Seen x g.seen
  keeps_queue : (x : Cell) → Seen x f.queue → Seen x g.queue
  queued : (x : Cell) → Seen x g.seen → Seen x f.seen ⊎ Seen x g.queue

same-IsVisit : (f : Frontier) → IsVisit f f
same-IsVisit f = record { keeps_seen = λ x h. h; keeps_queue = λ x h. h; queued = λ x h. inl h }

then-IsVisit : (f g h : Frontier) → IsVisit f g → IsVisit g h → IsVisit f h
then-IsVisit f g h a b = record {
  keeps_seen = λ x s. b.keeps_seen x (a.keeps_seen x s);
  keeps_queue = λ x s. b.keeps_queue x (a.keeps_queue x s);
  queued = λ x s. elim (b.queued x s) [
    | inr q ↦ inr q
    | inl q ↦ elim (a.queued x q) [ inl z ↦ inl z | inr z ↦ inr (b.keeps_queue x z) ]
  ];
}

added-IsVisit :
    (f : Frontier) (q : Cell) → IsVisit f (record { queue = f.queue ++ q ∷ []; seen = q ∷ f.seen })
added-IsVisit f q = record {
  keeps_seen = λ x h. rw h (ground arith);
  keeps_queue = λ x h. let both_parts = seen_append x f.queue (q ∷ []) in rw (both_parts, h) refl;
  queued = λ x h. elim (||_split (same_cell q x) _ h) [
    | inr old ↦ inl old
    | inl new ↦ let both_parts = seen_append x f.queue (q ∷ []) in inr (ground arith)
  ];
}

module _ (board : Board) (stone : Player) where
  visit-IsVisit : (f : Frontier) (o : Option Cell) → IsVisit f (visit board stone f o)
  visit-IsVisit f none = same-IsVisit f
  visit-IsVisit f (some q) =
      if_rule {A = Frontier} (λ g. IsVisit f g) (not (seen_in q f.seen) && has_stone board stone q)
        (λ _. added-IsVisit f q) (λ _. same-IsVisit f)

  visit-Seen :
      (f : Frontier) (q : Cell)
      → has_stone board stone q ≡ true
      → Seen q (visit board stone f (some q)).seen
  visit-Seen f q has =
      if_rule {A = Frontier} (λ g. Seen q g.seen)
        (not (seen_in q f.seen) && has_stone board stone q)
        (λ _. let self = same_cell_self q in rw self refl)
        (λ e. let e' : (not (seen_in q f.seen) && true) ≡ false = rw has at e in ground arith)

  visit_all-IsVisit :
      (p : Cell) (ds : List (Delta × Delta)) (f : Frontier)
      → IsVisit f (visit_all board stone p ds f)
  unfolding visit_all
  visit_all-IsVisit p [] f = same-IsVisit f
  visit_all-IsVisit p (d ∷ ds) f =
      then-IsVisit _ _ _ (visit-IsVisit f (neighbor p d))
        (visit_all-IsVisit p ds (visit board stone f (neighbor p d)))

  -- Every neighbour with a stone has been seen after the visit.
  visit_all-Seen :
      (p q : Cell) (ds : List (Delta × Delta)) (f : Frontier)
      → Any (λ d. neighbor p d ≡ some q) ds
      → has_stone board stone q ≡ true
      → Seen q (visit_all board stone p ds f).seen
  unfolding visit_all
  visit_all-Seen p q [] f near has = absurd near
  visit_all-Seen p q (d ∷ ds) f near has = elim near [
    | inr later ↦ visit_all-Seen p q ds (visit board stone f (neighbor p d)) later has
    | inl here ↦
        (visit_all-IsVisit p ds (visit board stone f (neighbor p d))).keeps_seen q
          (subst (λ o. Seen q (visit board stone f o).seen) (sym here) (visit-Seen f q has))
  ]

  -- A cell whose visit is over, without an end of the search.
  abbrev IsDone : List Cell → Cell → Type 0
  IsDone seen p =
      (reaches_target stone p ≡ false)
      × ((q : Cell) → IsNeighbor p q → has_stone board stone q ≡ true → Seen q seen)

  -- What is seen is in the queue or done with.
  abbrev Covers : List Cell → List Cell → Type 0
  Covers queue seen = (x : Cell) → Seen x seen → Seen x queue ⊎ IsDone seen x

  abbrev frontier : Cell → List Cell → List Cell → Frontier
  frontier p queue seen = visit_all board stone p neighbors (record { queue = queue; seen = seen })

  still-IsDone :
      (p : Cell) (queue seen : List Cell) (x : Cell)
      → IsDone seen x
      → IsDone (frontier p queue seen).seen x
  still-IsDone p queue seen x (short, near) = (
    short,
    λ q n has.
        (visit_all-IsVisit p neighbors (record { queue = queue; seen = seen })).keeps_seen q
          (near q n has),
  )

  Covers-next :
      (p : Cell) (queue seen : List Cell)
      → reaches_target stone p ≡ false
      → Covers (p ∷ queue) seen
      → Covers (frontier p queue seen).queue (frontier p queue seen).seen
  Covers-next p queue seen short covers x s =
      let v = visit_all-IsVisit p neighbors (record { queue = queue; seen = seen }) in
      elim (v.queued x s) [
        | inr q ↦ inl q
        | inl old ↦ elim (covers x old) [
          | inr finished ↦ inr (still-IsDone p queue seen x finished)
          | inl waiting ↦ elim (||_split (same_cell p x) _ waiting) [
            | inr q ↦ inl (v.keeps_queue x q)
            | inl same ↦ inr (
                subst (IsDone (frontier p queue seen).seen) (same_cell_eq p x same) (
                  short,
                  λ q n has.
                      visit_all-Seen p q neighbors (record { queue = queue; seen = seen }) n has,
                ))
          ]
        ]
      ]

  -- A search that ends in vain leaves a set that holds what it began with, and is done with.
  search-closed :
      (fuel : ℕ) (queue seen : List Cell)
      → Covers queue seen
      → search fuel board stone queue seen ≡ some false
      → (all_seen : List Cell) × ((x : Cell) → Seen x seen → Seen x all_seen)
        × ((x : Cell) → Seen x all_seen → IsDone all_seen x)
  unfolding search
  search-closed zero queue seen covers h = absurd cc
  search-closed (suc fuel) [] seen covers h =
      (seen, (λ x s. s), λ x s. elim (covers x s) [ inl bad ↦ absurd cc | inr d ↦ d ])
  search-closed (suc fuel) (p ∷ queue) seen covers h = elim (Bool-cases (reaches_target stone p)) [
    | inl q ↦ absurd (let bad = rw q at h in cc)
    | inr q ↦
        let (all_seen, more, closed) =
          search-closed fuel _ _ (Covers-next p queue seen q covers) (rw q at h) in
        let v = visit_all-IsVisit p neighbors (record { queue = queue; seen = seen }) in
        (all_seen, (λ x s. more x (v.keeps_seen x s)), closed)
  ]

  stones_of-Seen :
      (ps : List Cell) (x : Cell)
      → Any (λ p. p ≡ x) ps
      → holds (cell board x.0 x.1) stone ≡ true
      → Seen x (stones_of board stone ps)
  stones_of-Seen [] x h has = absurd h
  stones_of-Seen (p ∷ ps) x h has = elim h [
    | inl e ↦ rw e (let self = same_cell_self x in rw (has, self) refl)
    | inr later ↦
        let rest = stones_of-Seen ps x later has in
        if_rule (Seen x) (holds (cell board p.0 p.1) stone) (λ _. rw rest (ground arith))
          (λ _. rest)
  ]

  edge-Any :
      (is : List ℕ) (i : ℕ)
      → Any (λ j. j ≡ i) is
      → Any (λ p. p ≡ edge_cell stone i) (map (edge_cell stone) is)
  edge-Any [] i h = absurd h
  edge-Any (j ∷ is) i h = elim h [
    | inl e ↦ inl (ap (edge_cell stone) e)
    | inr later ↦ inr (edge-Any is i later)
  ]

  Reached-Seen :
      (p : Cell) (seen : List Cell)
      → ((x : Cell) → Seen x (edge_stones board stone) → Seen x seen)
      → ((x : Cell) → Seen x seen → IsDone seen x)
      → Reached board stone p
      → Seen p seen
  Reached-Seen p seen edge closed (from_edge i lt has) = edge _ (
      stones_of-Seen (map (edge_cell stone) (range size)) (edge_cell stone i)
        (edge-Any (range size) i (range_from-Any 0 size i (omega arith) (omega arith))) has)
  Reached-Seen p seen edge closed (onward {p = o} r near has) =
      (closed o (Reached-Seen o seen edge closed r)).1 p near has

  missed-none : connected board stone ≡ some false → ¬ Joined board stone
  unfolding connected
  missed-none h (p, r, reaches) =
      let (seen, edge, closed) =
        search-closed (size * size + size + 1) (edge_stones board stone) (edge_stones board stone)
          (λ x s. inl s) h in
      let (short, _) = closed p (Reached-Seen p seen edge closed r) in absurd cc

  -- The search ends on every board, and it says that the seat has won exactly where a chain of its
  -- stones, each a neighbour of the one before, joins its two edges.
  pub connected_lem :
      ((connected board stone ≡ some true) × Joined board stone)
      ⊎ ((connected board stone ≡ some false) × (¬ Joined board stone))
  connected_lem = elim (Option-cases (connected board stone)) [
    | inl q ↦ absurd (connected-ends board stone q)
    | inr (b, q) ↦ decided b q
  ]
    where
      decided :
          (b : Bool)
          → connected board stone ≡ some b
          → ((connected board stone ≡ some true) × Joined board stone)
            ⊎ ((connected board stone ≡ some false) × (¬ Joined board stone))
      decided true q = inl (q, connected-Joined board stone q)
      decided false q = inr (q, missed-none q)
