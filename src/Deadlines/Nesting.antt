-- ===== src/Deadlines/Nesting.antt =====
-- `action_deadline` of src/eslams/deadlines.py: an action never outlives what it stands in.
use e_slams.Prelude.{All, All-map, List, Option, [], arith, inl, inr, none, some, ℕ, ◌∷◌, ◌≤◌, ◌⊎◌}
use e_slams.Deadlines.{effective, nested, requested_at}

-- No later than a deadline, where there is one.
abbrev pub IsBefore : Option ℕ → ℕ → Type 0
IsBefore none limit = ⊥
IsBefore (some deadline) limit = deadline ≤ limit

abbrev pub IsMet : Option ℕ → Option ℕ → Type 0
IsMet deadline none = Unit
IsMet deadline (some limit) = IsBefore deadline limit

effective-IsBefore :
    (a b : Option ℕ) (limit : ℕ)
    → IsBefore a limit ⊎ IsBefore b limit
    → IsBefore (effective a b) limit
unfolding effective
effective-IsBefore none none limit h = elim h [ inl x ↦ x | inr x ↦ x ]
effective-IsBefore none (some b) limit h = elim h [ inl x ↦ absurd x | inr x ↦ x ]
effective-IsBefore (some a) none limit h = elim h [ inl x ↦ x | inr x ↦ absurd x ]
effective-IsBefore (some a) (some b) limit h = elim h [
  | inl x ↦ ground arith
  | inr x ↦ ground arith
]

effective-IsMet : (a b : Option ℕ) → IsMet (effective a b) a
unfolding effective
effective-IsMet none b = tt
effective-IsMet (some a) none = omega arith
effective-IsMet (some a) (some b) = ground arith

then-IsMet : (a b c : Option ℕ) → IsMet b c → IsMet (effective a b) c
then-IsMet a b none h = tt
then-IsMet a b (some limit) h = effective-IsBefore a b limit (inr h)

-- The deadline in force in nested actions is no later than any that they were asked for.
pub nested-IsMet :
    (actions : List (ℕ × Option ℕ))
    → All (λ a. IsMet (nested actions) (requested_at a.0 a.1)) actions
unfolding nested
nested-IsMet [] = tt
nested-IsMet (a ∷ around) = (
  effective-IsMet (requested_at a.0 a.1) (nested around),
  All-map _ _ around
      (λ b h. then-IsMet (requested_at a.0 a.1) (nested around) (requested_at b.0 b.1) h)
      (nested-IsMet around),
)
