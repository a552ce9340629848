-- ===== src/Plans/Building/Accepted.antt =====
-- The battlefield plans of src/eslams/planning.py pass `validate_plan`.
use Prim.Native.Char.{Char}
use Prim.Native.String.append.{cons as append_cons}
use e_slams.Prelude.{
  &&_split, All, All-append, All-count_if, Bool, Bool-cases, List, String, [], arith, bind-some,
  count_if, count_if-zero, eq_iff, false, inl, inr, map, not, refl, refused_some, some,
  some-injective, str_eq, subst, true, ||_split, ℕ, ◌||◌, ◌∷◌, ◌≡◌, ◌≤◌,
}
use e_slams.Json.{Json}
use e_slams.Plans.{EvalPlanEnvelope, sorted, to_dict}
use e_slams.Plans.Sharding.{count_if-sorted}
use e_slams.Plans.Acceptance.{is_empty, plan-accepted}
use e_slams.Plans.Building.{
  ModelRecord, all_in, battlefield_plan, case_id, cases_of, has_colon, is_nil, selected_arenas_of,
  unique,
}
use e_slams.Plans.Building.Cases.{Unique, Unique-IsDistinct, Unique-cases_of, sorted-unique-Unique}
use e_slams.Plans.Validation.{accepted, mem, validate_plan}

mem-All :
    (p : String → Bool) (x : String) (ys : List String)
    → mem x ys ≡ true
    → All (λ y. p y ≡ false) ys
    → p x ≡ false
unfolding mem
mem-All p x [] h k = absurd cc
mem-All p x (y ∷ ys) h (k, ks) = elim (||_split (str_eq y x) _ h) [
  | inl e ↦ let same = (eq_iff y x).0 e in rw (← same) k
  | inr e ↦ mem-All p x ys e ks
]

all_in-All :
    (p : String → Bool) (ys xs : List String)
    → all_in ys xs ≡ true
    → All (λ y. p y ≡ false) ys
    → All (λ y. p y ≡ false) xs
all_in-All p ys [] h k = tt
all_in-All p ys (x ∷ xs) h k =
    let (e, rest) = &&_split (mem x ys) _ h in (mem-All p x ys e k, all_in-All p ys xs rest k)

unique-le : (p : String → Bool) (xs : List String) → count_if p (unique xs) ≤ count_if p xs
unfolding unique
unique-le p [] = omega arith
unique-le p (x ∷ xs) =
    let rest = unique-le p xs in
    elim (Bool-cases (mem x xs)) [ inl q ↦ rw q (omega arith) | inr q ↦ rw q (omega arith) ]

sorted-unique-All :
    (p : String → Bool) (xs : List String)
    → All (λ y. p y ≡ false) xs
    → All (λ y. p y ≡ false) (sorted (unique xs))
sorted-unique-All p xs h =
    let none_left = count_if-zero p xs h in
    let fewer = unique-le p xs in
    let same = count_if-sorted p (unique xs) in All-count_if p (sorted (unique xs)) (omega arith)

full_case : (c : Char) (s m x : String) → is_empty (case_id (String.◌∷◌ c s) m x) ≡ false
full_case c s m x = rw (append_cons c s) refl

full_cases :
    (c : Char) (s : String) (models arenas : List String)
    → All (λ z. is_empty z ≡ false) (cases_of (String.◌∷◌ c s) models arenas)
full_cases c s [] arenas = tt
full_cases c s (m ∷ models) arenas =
    All-append _ (map (case_id (String.◌∷◌ c s) m) arenas) (cases_of (String.◌∷◌ c s) models arenas)
      (full_row arenas) (full_cases c s models arenas)
  where
    full_row :
        (arenas : List String)
        → All (λ z. is_empty z ≡ false) (map (case_id (String.◌∷◌ c s) m) arenas)
    full_row [] = tt
    full_row (x ∷ xs) = (full_case c s m x, full_row xs)

both : (a b : Bool) → (a || not b) ≡ false → b ≡ true
both a b h = ground arith

module _ (sha256_json : Json → String) (is_space : Char → Bool) (available : List String)
    (models : List ModelRecord) where
  -- The arenas of a plan are distinct and registered.
  selected :
      (arenas chosen : List String)
      → selected_arenas_of sha256_json is_space available models arenas ≡ some chosen
      → (all_in available arenas ≡ true) × (sorted (unique arenas) ≡ chosen)
  unfolding selected_arenas_of
  selected arenas chosen h =
      let (known_all, made) = refused_some _ _ h in
      (both (is_nil arenas) _ known_all, some-injective _ _ made)

  -- A battlefield plan is accepted, whatever pairs and arenas it is asked for, if the ids of the
  -- registered arenas have no colon.
  pub battlefield-accepted :
      (pairs arenas : List String) (count : ℕ) (p : EvalPlanEnvelope)
      → All (λ x. has_colon x ≡ false) available
      → battlefield_plan sha256_json is_space available models pairs arenas count ≡ some p
      → validate_plan sha256_json (to_dict sha256_json p) ≡ accepted
  unfolding battlefield_plan
  battlefield-accepted pairs arenas count p plain h =
      let (_, built) = refused_some _ _ h in
      let (chosen, choice, after_choice) = bind-some _ _ built in
      let (dealt, deal, made) = bind-some _ _ after_choice in
      let (known_all, same) = selected arenas chosen choice in
      let pairs_left = sorted (unique pairs) in
      let plain_arenas = subst (All (λ x. has_colon x ≡ false)) same (
        sorted-unique-All has_colon arenas
          (all_in-All has_colon available arenas known_all plain)) in
      let distinct_arenas = subst Unique same (sorted-unique-Unique arenas) in
      let case_ids = cases_of "battlefield" pairs_left chosen in
      subst (λ q. validate_plan sha256_json (to_dict sha256_json q) ≡ accepted)
        (some-injective _ _ made)
        (plan-accepted sha256_json _ case_ids count deal refl
          (Unique-IsDistinct case_ids (
            Unique-cases_of "battlefield" pairs_left chosen plain_arenas distinct_arenas
              (sorted-unique-Unique pairs)))
          (full_cases "b" "attlefield" pairs_left chosen) refl)
