-- ===== src/Plans/Acceptance.antt =====
-- `validate_plan` of src/eslams/planning.py accepts what `_shards` and `to_dict` make.
use e_slams.Prelude.{
  &&_split, All, Bool, List, String, [], ap, ap₂, arith, count_if, count_if-append, count_if-zero,
  eq_iff, false, guarded_some, leb→le, length, map, range, range_from, refl, some, str_eq, subst,
  suc, sym, true, zero, ℕ, ◌==◌, ◌||◌, ◌∙◌, ◌∷◌, ◌≡◌, ◌≤◌,
}
use e_slams.Json.{Fields, Json, arr, end, field, lookup, obj, str}
use e_slams.Plans.{
  EvalPlanEnvelope, Shard, payload_then, shard_at, shard_dict, shard_items, shards, sorted, stride,
  text_items, to_dict,
}
use e_slams.Plans.Sharding.{all_cases, count_if-shards, length-count_if, length-range_from}
use e_slams.Plans.Distinct.{IsDistinct, IsDistinct-distinct_count}
use e_slams.Plans.Validation.{
  accepted, all_ids, count_items, distinct_count, extend, hash_verdict, ids_of, shards_of,
  shards_verdict, texts, validate_plan,
}

abbrev pub is_empty : String → Bool
is_empty String.[] = true
is_empty (String.◌∷◌ c s) = false

pub texts-text_items :
    (xs : List String) → count_if is_empty xs ≡ 0 → texts (text_items xs) ≡ some xs
texts-text_items [] h = refl
texts-text_items (String.[] ∷ xs) h = absurd (omega arith)
texts-text_items (String.◌∷◌ c s ∷ xs) h =
    let rest = texts-text_items xs (omega arith) in rw rest refl

ids_of-shard_dict :
    (s : Shard)
    → s.case_count ≡ length s.case_ids
    → count_if is_empty s.case_ids ≡ 0
    → ids_of s.shard_index s.shard_count (shard_dict s) ≡ some s.case_ids
unfolding lookup
ids_of-shard_dict s sized full =
    let read = texts-text_items s.case_ids full in
    let a : (length s.case_ids == length s.case_ids) ≡ true = ground arith in
    let b : (s.shard_index == s.shard_index) ≡ true = ground arith in
    let c : (s.shard_count == s.shard_count) ≡ true = ground arith in rw (read, sized, a, b, c) refl

all_ids-shard_items :
    (xs : List String) (n k i : ℕ)
    → count_if is_empty (all_cases (map (shard_at xs n) (range_from i k))) ≡ 0
    → all_ids i n (shard_items (map (shard_at xs n) (range_from i k)))
      ≡ some (all_cases (map (shard_at xs n) (range_from i k)))
unfolding all_ids
all_ids-shard_items xs n zero i h = refl
all_ids-shard_items xs n (suc k) i h =
    let both =
      count_if-append is_empty (stride n i xs)
        (all_cases (map (shard_at xs n) (range_from (suc i) k))) in
    ap₂ extend (ids_of-shard_dict (shard_at xs n i) refl (omega arith))
      (all_ids-shard_items xs n k (suc i) (omega arith))

count_items-shard_items : (ss : List Shard) → count_items (shard_items ss) ≡ length ss
count_items-shard_items [] = refl
count_items-shard_items (s ∷ ss) = ap suc (count_items-shard_items ss)

abbrev pub is_kind : String → Bool
is_kind s = str_eq s "official" || str_eq s "battlefield" || str_eq s "public_match"

module _ (sha256_json : Json → String) where
  hash_accepted :
      (p : EvalPlanEnvelope)
      → hash_verdict sha256_json
          (payload_then p (field "plan_hash" (str (sha256_json (obj (payload_then p end)))) end))
        ≡ accepted
  unfolding lookup
  hash_accepted p =
      let self = (eq_iff (sha256_json (obj (payload_then p end))) _).1 refl in rw self refl

  -- What is left to check once the kind is right.
  shards_accepted :
      (fs : Fields) (s : Shard) (ss : List Shard) (cases : List String)
      → all_ids 0 (length (s ∷ ss)) (shard_items (s ∷ ss)) ≡ some cases
      → distinct_count cases ≡ length cases
      → hash_verdict sha256_json fs ≡ accepted
      → shards_verdict sha256_json fs
          (some (length cases))
          (shards_of (some (arr (shard_items (s ∷ ss)))))
        ≡ accepted
  shards_accepted fs s ss cases read distinct hashed =
      let same : (length cases == length cases) ≡ true = ground arith in
      let counted = count_items-shard_items ss in rw (counted, read, distinct, same) hashed

  cases-accepted :
      (p : EvalPlanEnvelope) (s : Shard) (ss : List Shard)
      → p.plan_shards ≡ s ∷ ss
      → all_ids 0 (length (s ∷ ss)) (shard_items (s ∷ ss)) ≡ some (all_cases (s ∷ ss))
      → p.case_count_expected ≡ length (all_cases (s ∷ ss))
      → distinct_count (all_cases (s ∷ ss)) ≡ length (all_cases (s ∷ ss))
      → is_kind p.kind ≡ true
      → validate_plan sha256_json (to_dict sha256_json p) ≡ accepted
  unfolding validate_plan to_dict lookup
  cases-accepted p s ss dealt_out read counted distinct kind =
      let fs =
        payload_then p (field "plan_hash" (str (sha256_json (obj (payload_then p end)))) end) in
      rw kind (
        ap₂
          (λ count items. shards_verdict sha256_json fs (some count) (shards_of (some (arr items))))
          counted (ap shard_items dealt_out)
        ∙ shards_accepted fs s ss _ read distinct (hash_accepted p))

  shares_accepted :
      (p : EvalPlanEnvelope) (case_ids : List String) (n : ℕ)
      → 1 ≤ n
      → map (shard_at (sorted case_ids) n) (range n) ≡ p.plan_shards
      → p.case_count_expected ≡ length case_ids
      → IsDistinct case_ids
      → count_if is_empty case_ids ≡ 0
      → is_kind p.kind ≡ true
      → validate_plan sha256_json (to_dict sha256_json p) ≡ accepted
  shares_accepted p case_ids zero some_shards made counted distinct full kind = absurd (omega arith)
  shares_accepted p case_ids (suc m) some_shards made counted distinct full kind =
      let cases = all_cases (map (shard_at (sorted case_ids) (suc m)) (range (suc m))) in
      let dealt_out : (q : String → Bool) → count_if q cases ≡ count_if q case_ids =
        λ q. count_if-shards q case_ids (suc m) some_shards in
      let sized : length cases ≡ length case_ids =
        sym (length-count_if cases) ∙ dealt_out (λ _. true) ∙ length-count_if case_ids in
      let once =
        IsDistinct-distinct_count cases
          (λ x. let k = dealt_out (λ y. str_eq y x) in let d = distinct x in omega arith) in
      let all_full = dealt_out is_empty in
      let read = all_ids-shard_items (sorted case_ids) (suc m) (suc m) 0 (omega arith) in
      let places = length-range_from (shard_at (sorted case_ids) (suc m)) 0 (suc m) in
      cases-accepted p _ _ (sym made)
        (subst
          (λ k.
            all_ids 0 k (shard_items (map (shard_at (sorted case_ids) (suc m)) (range (suc m))))
            ≡ some cases)
          (sym places) read)
        (counted ∙ sym sized) once kind

  -- Every plan that stands on the shards of distinct cases, with their count and a known kind, is
  -- accepted.
  pub plan-accepted :
      (p : EvalPlanEnvelope) (case_ids : List String) (n : ℕ)
      → shards case_ids n ≡ some p.plan_shards
      → p.case_count_expected ≡ length case_ids
      → IsDistinct case_ids
      → All (λ x. is_empty x ≡ false) case_ids
      → is_kind p.kind ≡ true
      → validate_plan sha256_json (to_dict sha256_json p) ≡ accepted
  unfolding shards
  plan-accepted p case_ids n dealt_out counted distinct full kind =
      let (ok, made) = guarded_some _ _ dealt_out in
      shares_accepted p case_ids n (leb→le 1 n (&&_split _ _ ok).0) made counted distinct
        (count_if-zero is_empty case_ids full) kind
