-- ===== src/Plans/Sharding.antt =====
-- `_shards` of src/eslams/planning.py deals the cases out.
use e_slams.Prelude.{
  &&_split, All, Bool, Bool-cases, List, String, [], ap, arith, count_if, count_if-append,
  guarded_some, if◌then◌else◌, inl, inr, leb→le, length, map, range, range_from, refl, some, subst,
  suc, sym, true, zero, ℕ, ◌*◌, ◌++◌, ◌+◌, ◌-◌, ◌<◌, ◌∙◌, ◌∷◌, ◌≡◌, ◌≤◌,
}
use Prim.Native.Nat.mul
use e_slams.Plans.{Shard, insert, shard_at, shards, sorted, str_le, stride}

count_if-insert :
    (p : String → Bool) (x : String) (xs : List String)
    → count_if p (insert x xs) ≡ count_if p (x ∷ xs)
unfolding insert
count_if-insert p x [] = refl
count_if-insert p x (y ∷ ys) = elim (Bool-cases (str_le x y)) [
  | inl q ↦ rw q refl
  | inr q ↦ let rest = count_if-insert p x ys in rw q (omega arith)
]

pub count_if-sorted :
    (p : String → Bool) (xs : List String) → count_if p (sorted xs) ≡ count_if p xs
unfolding sorted
count_if-sorted p [] = refl
count_if-sorted p (x ∷ xs) =
    let rest = count_if-sorted p xs in let added = count_if-insert p x (sorted xs) in omega arith

-- How many cases of the first shards pass a test.
abbrev dealt : {A : Type 0} → (A → Bool) → ℕ → List A → ℕ → ℕ
dealt p n xs zero = 0
dealt p n xs (suc k) = dealt p n xs k + count_if p (stride n k xs)

module _ {A : Type 0} (p : A → Bool) where
  dealt_nil : (n k : ℕ) → dealt p n [] k ≡ 0
  unfolding stride
  dealt_nil n zero = refl
  dealt_nil n (suc k) = omega (arith, dealt_nil n k)

  dealt_cons :
      (n : ℕ) (x : A) (xs : List A) (k : ℕ)
      → dealt p n (x ∷ xs) (suc k)
        ≡ (if p x then 1 else 0) + count_if p (stride n (n - 1) xs) + dealt p n xs k
  unfolding stride
  dealt_cons n x xs zero = omega arith
  dealt_cons n x xs (suc k) = let rest = dealt_cons n x xs k in omega arith

  dealt_all : (n : ℕ) (xs : List A) → dealt p (suc n) xs (suc n) ≡ count_if p xs
  dealt_all n [] = dealt_nil (suc n) (suc n)
  dealt_all n (x ∷ xs) =
      let first = dealt_cons (suc n) x xs n in
      let rest = dealt_all n xs in
      let same : suc n - 1 ≡ n = omega arith in let first' = rw same at first in omega arith

-- The sizes of the slices: as equal as can be.
pub stride_size :
    {A : Type 0} (n i : ℕ) (xs : List A)
    → i < n
    → (length (stride n i xs) * n ≤ length xs + (n - 1 - i))
      × (length xs ≤ length (stride n i xs) * n + i)
unfolding stride
stride_size n i [] h = (omega arith, omega arith)
stride_size n zero (x ∷ xs) h =
    let (most, least) = stride_size n (n - 1) xs (omega arith) in
    let more = mul.suc (length (stride n (n - 1) xs)) n in (omega arith, omega arith)
stride_size n (suc i) (x ∷ xs) h =
    let (most, least) = stride_size n i xs (omega arith) in (omega arith, omega arith)

abbrev pub all_cases : List Shard → List String
all_cases [] = []
all_cases (s ∷ ss) = s.case_ids ++ all_cases ss

dealt_range :
    (p : String → Bool) (n : ℕ) (xs : List String) (k i m : ℕ)
    → m ≡ i + k
    → count_if p (all_cases (map (shard_at xs n) (range_from i k))) + dealt p n xs i
      ≡ dealt p n xs m
dealt_range p n xs zero i m e = let same : m ≡ i = omega arith in rw same (omega arith)
dealt_range p n xs (suc k) i m e =
    let rest = dealt_range p n xs k (suc i) m (omega arith) in
    let both =
      count_if-append p (stride n i xs) (all_cases (map (shard_at xs n) (range_from (suc i) k))) in
    omega arith

-- A shard has the number and size of its place among so many shards of so many cases.
pub record IsShare (cases count : ℕ) (s : Shard) : Type 0 where
  pub in_range : s.shard_index < count
  pub counted : s.shard_count ≡ count
  pub sized : s.case_count ≡ length s.case_ids
  pub at_most : s.case_count * count ≤ cases + (count - 1 - s.shard_index)
  pub at_least : cases ≤ s.case_count * count + s.shard_index

shares_range :
    (xs : List String) (n k i : ℕ)
    → i + k ≤ n
    → All (IsShare (length xs) n) (map (shard_at xs n) (range_from i k))
shares_range xs n zero i h = tt
shares_range xs n (suc k) i h =
    let (most, least) = stride_size n i xs (omega arith) in
    (
      record {
        in_range = omega arith;
        counted = refl;
        sized = refl;
        at_most = most;
        at_least = least;
      },
      shares_range xs n k (suc i) (omega arith),
    )

pub length-range_from : (f : ℕ → Shard) (i k : ℕ) → length (map f (range_from i k)) ≡ k
length-range_from f i zero = refl
length-range_from f i (suc k) = ap suc (length-range_from f (suc i) k)

pub length-count_if : (xs : List String) → count_if (λ _. true) xs ≡ length xs
length-count_if [] = refl
length-count_if (x ∷ xs) = omega (arith, length-count_if xs)

pub length-sorted : (xs : List String) → length (sorted xs) ≡ length xs
length-sorted xs =
    sym (length-count_if (sorted xs)) ∙ count_if-sorted (λ _. true) xs ∙ length-count_if xs

pub count_if-shards :
    (p : String → Bool) (case_ids : List String) (n : ℕ)
    → 1 ≤ n
    → count_if p (all_cases (map (shard_at (sorted case_ids) n) (range n))) ≡ count_if p case_ids
count_if-shards p case_ids zero h = absurd (omega arith)
count_if-shards p case_ids (suc n) h =
    let ranged = dealt_range p (suc n) (sorted case_ids) (suc n) 0 (suc n) (omega arith) in
    let dealt_out = dealt_all p n (sorted case_ids) in
    let order = count_if-sorted p case_ids in omega arith

-- The shards of a plan deal its cases out: whatever is counted in all of them together comes to
-- what it is in the cases, there are as many as asked for, and their sizes are as equal as can be.
pub shards-IsPartition :
    (case_ids : List String) (n : ℕ) (ss : List Shard)
    → shards case_ids n ≡ some ss
    → (length ss ≡ n)
      × ((p : String → Bool) → count_if p (all_cases ss) ≡ count_if p case_ids)
      × All (IsShare (length case_ids) n) ss
unfolding shards
shards-IsPartition case_ids n ss h =
    let (ok, made) = guarded_some _ _ h in
    let some_shards : 1 ≤ n = leb→le 1 n (&&_split _ _ ok).0 in
    let shares = shares_range (sorted case_ids) n n 0 (omega arith) in
    subst
      (λ ss.
        (length ss ≡ n)
        × ((p : String → Bool) → count_if p (all_cases ss) ≡ count_if p case_ids)
        × All (IsShare (length case_ids) n) ss)
      made
      (
        length-range_from _ 0 n,
        (λ p. count_if-shards p case_ids n some_shards),
        subst (λ m. All (IsShare m n) (map (shard_at (sorted case_ids) n) (range n)))
            (length-sorted case_ids) shares,
      )
