-- ===== src/Arenas/Hex/Search.antt =====
-- What `_connected` of src/eslams/arenas/hex.py finds is a chain of stones.
use e_slams.Prelude.{
  &&_split, All, All-append, Any, Bool-cases, List, Option, [], arith, if_rule, inl, inr, map, none,
  not, range_from, refl, some, suc, true, zero, ℕ, ◌&&◌, ◌*◌, ◌+◌, ◌<◌, ◌∷◌, ◌≡◌, ◌≤◌,
}
use e_slams.Arena.{Player}
use e_slams.Arenas.Stones.{Board, Cell, Delta, cell, holds, neighbor}
use e_slams.Arenas.Hex.{
  Frontier, connected, edge_cell, edge_stones, has_stone, neighbors, reaches_target, search,
  seen_in, size, stones_of, visit, visit_all,
}

abbrev pub IsNeighbor : Cell → Cell → Type 0
IsNeighbor p q = Any (λ d. neighbor p d ≡ some q) neighbors

-- The cells that a chain of stones joins to the seat's edge.
pub data Reached (board : Board) (stone : Player) : Cell → Type 0 where
  from_edge :
      (i : ℕ)
      → i < size
      → holds (cell board (edge_cell stone i).0 (edge_cell stone i).1) stone ≡ true
      → Reached board stone (edge_cell stone i)
  onward :
      {p q : Cell}
      → Reached board stone p
      → IsNeighbor p q
      → has_stone board stone q ≡ true
      → Reached board stone q

-- The seat's two edges are joined.
abbrev pub Joined : Board → Player → Type 0
Joined board stone = (p : Cell) × Reached board stone p × (reaches_target stone p ≡ true)

pub All-neighbors :
    (p : Cell) → All (λ d. (q : Cell) → neighbor p d ≡ some q → IsNeighbor p q) neighbors
All-neighbors p = (
  λ q e. inl e,
  (
    λ q e. inr (inl e),
    (
      λ q e. inr (inr (inl e)),
      (
        λ q e. inr (inr (inr (inl e))),
        (λ q e. inr (inr (inr (inr (inl e)))), (λ q e. inr (inr (inr (inr (inr (inl e))))), tt)),
      ),
    ),
  ),
)

module _ (board : Board) (stone : Player) where
  visit-Reached :
      (f : Frontier) (o : Option Cell)
      → ((q : Cell) → o ≡ some q → has_stone board stone q ≡ true → Reached board stone q)
      → All (Reached board stone) f.queue
      → All (Reached board stone) (visit board stone f o).queue
  visit-Reached f none next h = h
  visit-Reached f (some q) next h =
      if_rule {A = Frontier} (λ g. All (Reached board stone) g.queue)
        (not (seen_in q f.seen) && has_stone board stone q)
        (λ e. All-append _ f.queue (q ∷ []) h (next q refl (&&_split _ _ e).1, tt)) (λ _. h)

  visit_all-Reached :
      (p : Cell) (ds : List (Delta × Delta)) (f : Frontier)
      → Reached board stone p
      → All (λ d. (q : Cell) → neighbor p d ≡ some q → IsNeighbor p q) ds
      → All (Reached board stone) f.queue
      → All (Reached board stone) (visit_all board stone p ds f).queue
  unfolding visit_all
  visit_all-Reached p [] f r near h = h
  visit_all-Reached p (d ∷ ds) f r (n, near) h =
      visit_all-Reached p ds (visit board stone f (neighbor p d)) r near
        (visit-Reached f (neighbor p d) (λ q e has. onward r (n q e) has) h)

  search-Joined :
      (fuel : ℕ) (queue seen : List Cell)
      → All (Reached board stone) queue
      → search fuel board stone queue seen ≡ some true
      → Joined board stone
  unfolding search
  search-Joined zero queue seen h found = absurd cc
  search-Joined (suc fuel) [] seen h found = absurd cc
  search-Joined (suc fuel) (p ∷ queue) seen (r, h) found =
      elim (Bool-cases (reaches_target stone p)) [
        | inl q ↦ (p, r, q)
        | inr q ↦
            search-Joined fuel _ _
              (visit_all-Reached p neighbors (record { queue = queue; seen = seen }) r
                (All-neighbors p) h)
              (rw q at found)
      ]

  stones_of-Reached :
      (k n : ℕ)
      → k + n ≤ size
      → All (Reached board stone) (stones_of board stone (map (edge_cell stone) (range_from k n)))
  stones_of-Reached k zero le = tt
  stones_of-Reached k (suc n) le =
      elim (Bool-cases (holds (cell board (edge_cell stone k).0 (edge_cell stone k).1) stone)) [
        | inl q ↦ rw q (from_edge k (omega arith) q, stones_of-Reached (suc k) n (omega arith))
        | inr q ↦ rw q (stones_of-Reached (suc k) n (omega arith))
      ]

  pub connected-Joined : connected board stone ≡ some true → Joined board stone
  unfolding connected
  connected-Joined h =
      search-Joined (size * size + size + 1) (edge_stones board stone) (edge_stones board stone)
        (stones_of-Reached 0 size (omega arith)) h
