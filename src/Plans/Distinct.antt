-- ===== src/Plans/Distinct.antt =====
-- `len(set(xs))` of src/eslams/planning.py: when no text comes twice.
use e_slams.Prelude.{
  Bool-cases, List, String, [], arith, count_if, eq_iff, false, inl, inr, length, ltb, refl, str_eq,
  suc, sym, ◌+◌, ◌∙◌, ◌∷◌, ◌≡◌, ◌≤◌,
}
use e_slams.Plans.Validation.{distinct_count, mem}

-- No text comes twice.
abbrev pub IsDistinct : List String → Type 0
IsDistinct xs = (x : String) → count_if (λ y. str_eq y x) xs ≤ 1

mem_count : (x : String) (xs : List String) → mem x xs ≡ ltb 0 (count_if (λ y. str_eq y x) xs)
unfolding mem
mem_count x [] = refl
mem_count x (y ∷ ys) = elim (Bool-cases (str_eq y x)) [
  | inl q ↦ rw q (ground arith)
  | inr q ↦ let rest = mem_count x ys in rw q (ground arith)
]

pub distinct_count-le : (xs : List String) → distinct_count xs ≤ length xs
unfolding distinct_count
distinct_count-le [] = omega arith
distinct_count-le (x ∷ xs) = let rest = distinct_count-le xs in ground arith

pub distinct_count-IsDistinct : (xs : List String) → distinct_count xs ≡ length xs → IsDistinct xs
unfolding distinct_count
distinct_count-IsDistinct [] h x = omega arith
distinct_count-IsDistinct (y ∷ ys) h x =
    let bound = distinct_count-le ys in
    let new : mem y ys ≡ false = elim (Bool-cases (mem y ys)) [
      | inr q ↦ q
      | inl q ↦ absurd (
          let h' : 0 + distinct_count ys ≡ suc (length ys) = rw (q, distinct_count) at h in
          omega arith)
    ] in
    let h' : 1 + distinct_count ys ≡ suc (length ys) = rw (new, distinct_count) at h in
    let once = distinct_count-IsDistinct ys (omega arith) x in
    elim (Bool-cases (str_eq y x)) [
      | inr q ↦ rw q (omega arith)
      | inl q ↦
          let same = (eq_iff y x).0 q in
          let none_left : ltb 0 (count_if (λ z. str_eq z x) ys) ≡ false =
            rw same at (sym (mem_count y ys) ∙ new) in
          rw q (ground arith)
    ]

pub IsDistinct-distinct_count : (xs : List String) → IsDistinct xs → distinct_count xs ≡ length xs
unfolding distinct_count
IsDistinct-distinct_count [] d = refl
IsDistinct-distinct_count (y ∷ ys) d =
    let rest = IsDistinct-distinct_count ys (λ x. let k = d x in omega arith) in
    let here = d y in
    let self = (eq_iff y y).1 refl in
    let once : 1 + count_if (λ z. str_eq z y) ys ≤ 1 = rw self at here in
    let new : mem y ys ≡ false =
      mem_count y ys ∙ (let z : count_if (λ z. str_eq z y) ys ≡ 0 = omega arith in rw z refl) in
    rw new (omega arith)
