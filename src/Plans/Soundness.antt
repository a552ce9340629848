-- ===== src/Plans/Soundness.antt =====
-- What `validate_plan` of src/eslams/planning.py accepts, told apart from its checks.
use e_slams.Prelude.{
  &&_split, ==_iff, Any, Bool-cases, List, Option, String, [], ap, arith, eq_iff, inl, inr, length,
  none, refl, some, some-injective, str_eq, subst, sym, true, ||_split, ℕ, ◌&&◌, ◌==◌, ◌||◌, ◌↔◌,
  ◌∙◌, ◌∷◌, ◌≡◌, ◌≢◌,
}
use e_slams.Json.{Fields, Items, Json, arr, bool, cons, float, int, lookup, nil, null, obj, str}
use e_slams.Plans.{eval_plan_schema_version, number}
use e_slams.Plans.Distinct.{IsDistinct, IsDistinct-distinct_count, distinct_count-IsDistinct}
use e_slams.Plans.Acceptance.{is_kind}
use e_slams.Plans.Shards.{Deals, Deals-all_ids, all_ids-Deals}
use e_slams.Plans.Validation.{
  KindTest, accepted, all_ids, cases_verdict, count_items, count_of, distinct_count, hash_verdict,
  is_text, kind_test, kind_verdict, known, shards_of, shards_verdict, unhashable, unknown,
  validate_plan, without,
}
use e_slams.Prelude.Int.{negsuc, pos}

-- A plan with these cases, in this order.
pub record IsPlan (sha256_json : Json → String) (fs : Fields) (cases : List String) : Type 0 where
  pub version : lookup "schema_version" fs ≡ some (str eval_plan_schema_version)
  pub kind :
      Any (λ k. lookup "kind" fs ≡ some (str k)) ("official" ∷ "battlefield" ∷ "public_match" ∷ [])
  pub count : lookup "case_count_expected" fs ≡ some (number (length cases))
  pub items : Items
  pub has_shards : lookup "shards" fs ≡ some (arr items)
  pub some_shards : items ≢ nil
  pub dealt : Deals 0 (count_items items) items cases
  pub distinct : IsDistinct cases
  pub hashed : lookup "plan_hash" fs ≡ some (str (sha256_json (obj (without "plan_hash" fs))))

is_text-some : (t : String) (o : Option Json) → is_text t o ≡ true → o ≡ some (str t)
is_text-some t (some (str s)) h = let e = (eq_iff s t).0 h in rw e refl
is_text-some t (some null) h = absurd cc
is_text-some t (some (bool b)) h = absurd cc
is_text-some t (some (int n)) h = absurd cc
is_text-some t (some (float x)) h = absurd cc
is_text-some t (some (arr xs)) h = absurd cc
is_text-some t (some (obj fs)) h = absurd cc
is_text-some t none h = absurd cc

kind-known :
    (o : Option Json)
    → kind_test o ≡ known
    → Any (λ k. o ≡ some (str k)) ("official" ∷ "battlefield" ∷ "public_match" ∷ [])
kind-known (some (str s)) h = elim (Bool-cases (is_kind s)) [
  | inr q ↦ absurd (let bad = rw q at h in cc)
  | inl q ↦ elim (||_split (str_eq s "official" || str_eq s "battlefield") _ q) [
    | inr c ↦ inr (inr (inl (ap (λ z. some (str z)) ((eq_iff s _).0 c))))
    | inl ab ↦ elim (||_split (str_eq s "official") _ ab) [
      | inl a ↦ inl (ap (λ z. some (str z)) ((eq_iff s _).0 a))
      | inr b ↦ inr (inl (ap (λ z. some (str z)) ((eq_iff s _).0 b)))
    ]
  ]
]
kind-known (some null) h = absurd cc
kind-known (some (bool b)) h = absurd cc
kind-known (some (int n)) h = absurd cc
kind-known (some (float x)) h = absurd cc
kind-known (some (arr xs)) h = absurd cc
kind-known (some (obj fs)) h = absurd cc
kind-known none h = absurd cc

known-kind :
    (o : Option Json)
    → Any (λ k. o ≡ some (str k)) ("official" ∷ "battlefield" ∷ "public_match" ∷ [])
    → kind_test o ≡ known
known-kind o (inl e) = rw e refl
known-kind o (inr (inl e)) = rw e refl
known-kind o (inr (inr (inl e))) = rw e refl
known-kind o (inr (inr (inr e))) = absurd e

count_of-some : (o : Option Json) (n : ℕ) → count_of o ≡ some n → o ≡ some (number n)
count_of-some (some (int (pos m))) n h = ap (λ k. some (number k)) (some-injective m n h)
count_of-some (some (int (negsuc m))) n h = absurd cc
count_of-some (some null) n h = absurd cc
count_of-some (some (bool b)) n h = absurd cc
count_of-some (some (float x)) n h = absurd cc
count_of-some (some (str s)) n h = absurd cc
count_of-some (some (arr xs)) n h = absurd cc
count_of-some (some (obj fs)) n h = absurd cc
count_of-some none n h = absurd cc

shards_of-some :
    (o : Option Json) (items : Items)
    → shards_of o ≡ some items
    → (o ≡ some (arr items)) × (items ≢ nil)
shards_of-some (some (arr (cons x xs))) items h =
    subst (λ l. (some (arr (cons x xs)) ≡ some (arr l)) × (l ≢ nil)) (some-injective _ _ h)
      (refl, λ e. cc)
shards_of-some (some (arr nil)) items h = absurd cc
shards_of-some (some null) items h = absurd cc
shards_of-some (some (bool b)) items h = absurd cc
shards_of-some (some (int n)) items h = absurd cc
shards_of-some (some (float x)) items h = absurd cc
shards_of-some (some (str s)) items h = absurd cc
shards_of-some (some (obj fs)) items h = absurd cc
shards_of-some none items h = absurd cc

some-shards_of : (items : Items) → items ≢ nil → shards_of (some (arr items)) ≡ some items
some-shards_of nil h = absurd (h refl)
some-shards_of (cons x xs) h = refl

module _ (sha256_json : Json → String) (fs : Fields) where
  hash_passed :
      hash_verdict sha256_json fs ≡ accepted
      → lookup "plan_hash" fs ≡ some (str (sha256_json (obj (without "plan_hash" fs))))
  hash_passed h =
      elim (Bool-cases
        (is_text (sha256_json (obj (without "plan_hash" fs))) (lookup "plan_hash" fs))) [
          | inl q ↦ is_text-some _ (lookup "plan_hash" fs) q
          | inr q ↦ absurd (let bad = rw q at h in cc)
        ]

  cases_passed :
      (count : ℕ) (o : Option (List String))
      → cases_verdict sha256_json fs count o ≡ accepted
      → (cases : List String) × (o ≡ some cases)
        × (length cases ≡ count)
        × (distinct_count cases ≡ count)
        × (hash_verdict sha256_json fs ≡ accepted)
  cases_passed count none h = absurd cc
  cases_passed count (some cases) h =
      elim (Bool-cases (length cases == count && distinct_count cases == count)) [
        | inr q ↦ absurd (let bad = rw q at h in cc)
        | inl q ↦
            let (a, b) = &&_split (length cases == count) _ q in
            (cases, refl, (==_iff _ _).0 a, (==_iff _ _).0 b, rw q at h)
      ]

  shards_passed :
      (c : Option ℕ) (i : Option Items)
      → shards_verdict sha256_json fs c i ≡ accepted
      → (count : ℕ) × (items : Items) × (c ≡ some count)
        × (i ≡ some items)
        × (cases_verdict sha256_json fs count (all_ids 0 (count_items items) items) ≡ accepted)
  shards_passed none i h = absurd cc
  shards_passed (some count) none h = absurd cc
  shards_passed (some count) (some items) h = (count, items, refl, refl, h)

  kind_passed :
      (k : KindTest)
      → kind_verdict sha256_json fs k ≡ accepted
      → (k ≡ known)
        × (shards_verdict sha256_json fs
              (count_of (lookup "case_count_expected" fs))
              (shards_of (lookup "shards" fs))
            ≡ accepted)
  kind_passed known h = (refl, h)
  kind_passed unknown h = absurd cc
  kind_passed unhashable h = absurd cc

  accepted-IsPlan :
      validate_plan sha256_json (obj fs) ≡ accepted
      → (cases : List String) × IsPlan sha256_json fs cases
  unfolding validate_plan
  accepted-IsPlan h =
      elim (Bool-cases (is_text eval_plan_schema_version (lookup "schema_version" fs))) [
        | inr q ↦ absurd (let bad = rw q at h in cc)
        | inl q ↦
            let (known_kind, rest) = kind_passed (kind_test (lookup "kind" fs)) (rw q at h) in
            let (count, items, c, i, checked) = shards_passed _ _ rest in
            let (cases, read, sized, distinct, hashed) = cases_passed count _ checked in
            let (has_shards, some_shards) = shards_of-some (lookup "shards" fs) items i in
            (
              cases,
              record {
                version = is_text-some _ (lookup "schema_version" fs) q;
                kind = kind-known (lookup "kind" fs) known_kind;
                count = count_of-some (lookup "case_count_expected" fs) _ (c ∙ ap some (sym sized));
                items = items;
                has_shards = has_shards;
                some_shards = some_shards;
                dealt = all_ids-Deals 0 _ items cases read;
                distinct = distinct_count-IsDistinct cases (distinct ∙ sym sized);
                hashed = hash_passed hashed;
              },
            )
      ]

  IsPlan-accepted :
      (cases : List String)
      → IsPlan sha256_json fs cases
      → validate_plan sha256_json (obj fs) ≡ accepted
  unfolding validate_plan
  IsPlan-accepted cases p =
      let version = p.version in
      let count = p.count in
      let has_shards = p.has_shards in
      let hashed = p.hashed in
      let kind = known-kind (lookup "kind" fs) p.kind in
      let dealt_out = some-shards_of p.items p.some_shards in
      let read = Deals-all_ids 0 _ p.items cases p.dealt in
      let once = IsDistinct-distinct_count cases p.distinct in
      let same : (length cases == length cases) ≡ true = ground arith in
      let hash = sha256_json (obj (without "plan_hash" fs)) in
      let self = (eq_iff hash hash).1 refl in
      rw (version, kind, count, has_shards, dealt_out, read, once, same, hashed, self) refl

  -- The validator accepts an object exactly when it is a plan with some list of cases: its version
  -- and kind are known, its shards, at least one, say their place, their number and their size,
  -- name every case and hold the cases in this order, no case is in them twice, there are as many
  -- as the plan says, and the plan's hash is that of the rest of it.
  pub validate_plan_iff :
      (validate_plan sha256_json (obj fs) ≡ accepted)
      ↔ ((cases : List String) × IsPlan sha256_json fs cases)
  validate_plan_iff = (accepted-IsPlan, λ p. IsPlan-accepted p.0 p.1)
