-- ===== src/Plans/Examples.antt =====
-- Plans on concrete cases.
use Prim.Native.Char.{Char, code}
use e_slams.Prelude.{
  All, Bool, List, Option, String, [], count_if, length, none, refl, some, ◌==◌, ◌↔◌, ◌∷◌, ◌≡◌,
}
use e_slams.Json.{Fields, Json, arr, end, field, nil, obj, str}
use e_slams.Plans.{EvalPlanEnvelope, Shard, payload_then, shards, sorted, str_le, to_dict}
use e_slams.Plans.Sharding.{IsShare, all_cases, shards-IsPartition}
use e_slams.Plans.Distinct.{IsDistinct, distinct_count-IsDistinct}
use e_slams.Plans.Acceptance.{plan-accepted}
use e_slams.Plans.Soundness.{IsPlan, validate_plan_iff}
use e_slams.Plans.Building.{battlefield_plan, has_colon}
use e_slams.Plans.Building.Accepted.{battlefield-accepted}
use e_slams.Plans.Validation.{
  accepted, distinct_count, inconsistent_totals, type_error, validate_plan,
}

abbrev letters : List String
letters = "c" ∷ "a" ∷ "e" ∷ "b" ∷ "d" ∷ []

abbrev dealt_letters : List Shard
dealt_letters =
    record { shard_index = 0; shard_count = 2; case_count = 3; case_ids = "a" ∷ "c" ∷ "e" ∷ [] }
    ∷ record { shard_index = 1; shard_count = 2; case_count = 2; case_ids = "b" ∷ "d" ∷ [] }
    ∷ []

shards-IsPartition_example :
    (length dealt_letters ≡ 2)
    × ((p : String → Bool) → count_if p (all_cases dealt_letters) ≡ count_if p letters)
    × All (IsShare 5 2) dealt_letters
unfolding shards sorted str_le
shards-IsPartition_example = shards-IsPartition letters 2 dealt_letters refl

-- A hash that tells no values apart.
abbrev flat : Json → String
flat v = "hash"

abbrev plan : EvalPlanEnvelope
plan = record {
  kind = "official";
  generated_at = "t";
  suite_fingerprint = "s";
  core_version = "1";
  runner_version = "1";
  registry_hash = "r";
  selected_providers = [];
  selected_models = [];
  selected_arenas = [];
  case_count_expected = 5;
  plan_shards = dealt_letters;
  required_environment_names = [];
  output_references = nil;
  policy_ids = [];
}

letters-IsDistinct : IsDistinct letters
unfolding distinct_count
letters-IsDistinct = distinct_count-IsDistinct letters refl

plan-accepted_example : validate_plan flat (to_dict flat plan) ≡ accepted
unfolding shards sorted str_le
plan-accepted_example =
    plan-accepted flat plan letters 2 refl refl letters-IsDistinct
      (refl, (refl, (refl, (refl, (refl, tt))))) refl

abbrev fields : Fields
fields = payload_then plan (field "plan_hash" (str "hash") end)

validate_plan_iff_example :
    (validate_plan flat (obj fields) ≡ accepted)
    ↔ ((cases : List String) × IsPlan flat fields cases)
validate_plan_iff_example = validate_plan_iff flat fields

-- A case that comes twice is refused.
twice_refused :
    validate_plan flat (
      to_dict flat (record plan {
        case_count_expected = 2;
        plan_shards =
            record { shard_index = 0; shard_count = 1; case_count = 2; case_ids = "a" ∷ "a" ∷ [] }
            ∷ [];
      }))
    ≡ inconsistent_totals
unfolding validate_plan to_dict
twice_refused = refl

-- A list for a kind is no ValueError.
list_kind :
    validate_plan flat
      (obj (field "schema_version" (str "eslams.eval.plan.v1") (field "kind" (arr nil) end)))
    ≡ type_error
unfolding validate_plan
list_kind = refl

abbrev space : Char → Bool
space c = code c == 32

abbrev battle : Option EvalPlanEnvelope
battle =
    battlefield_plan flat space ("hex" ∷ "go" ∷ []) [] ("x:y" ∷ "x:y" ∷ "a:b:c" ∷ []) ("hex" ∷ []) 2

abbrev battle_plan : EvalPlanEnvelope
battle_plan = elim battle as (λ _. EvalPlanEnvelope) [ none ↦ plan | some p ↦ p ]

battlefield-accepted_example : validate_plan flat (to_dict flat battle_plan) ≡ accepted
unfolding battlefield_plan has_colon shards sorted str_le
battlefield-accepted_example =
    battlefield-accepted flat space ("hex" ∷ "go" ∷ []) [] ("x:y" ∷ "x:y" ∷ "a:b:c" ∷ [])
      ("hex" ∷ []) 2 battle_plan (refl, (refl, tt)) refl
