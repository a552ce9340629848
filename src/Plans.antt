-- ===== src/Plans.antt =====
-- Evaluation plans, src/eslams/planning.py and `EvalPlanEnvelope` of
-- src/eslams/contracts/eval_plan.py. `sha256_json` of src/eslams/hashing.py is a parameter. A
-- ValueError is a rejection of the model's own.
pub mod Sharding
pub mod Validation
pub mod Distinct
pub mod Acceptance
pub mod Shards
pub mod Soundness
pub mod Building
mod Examples
use Prim.Native.Char.{code, Char}
use mathlib.Core.Option
use e_slams.Prelude.{
  Bool, List, Option, String, [], false, if◌then◌else◌, leb, length, ltb, map, none, range, some,
  suc, true, zero, ℕ, ◌&&◌, ◌-◌, ◌==◌, ◌||◌, ◌∷◌,
}
use e_slams.Prelude.Int.{pos}
use e_slams.Json.{Fields, Items, Json, arr, cons, end, field, int, nil, obj, str}

-- Python's order of texts: by code points.
pub str_le : String → String → Bool
str_le String.[] t = true
str_le (String.◌∷◌ c s) String.[] = false
str_le (String.◌∷◌ c s) (String.◌∷◌ d t) = ltb (code c) (code d) || (code c == code d && str_le s t)

pub insert : String → List String → List String
insert x [] = x ∷ []
insert x (y ∷ ys) = let rest = insert x ys in if str_le x y then x ∷ y ∷ ys else y ∷ rest

-- sorted(xs)
unfoldable pub sorted : List String → List String
unfolding insert
sorted [] = []
sorted (x ∷ xs) = insert x (sorted xs)

-- xs[wait::n]
pub stride : {A : Type 0} → ℕ → ℕ → List A → List A
stride n wait [] = []
stride n zero (x ∷ xs) = x ∷ stride n (n - 1) xs
stride n (suc wait) (x ∷ xs) = stride n wait xs

pub record Shard : Type 0 where
  pub shard_index : ℕ
  pub shard_count : ℕ
  pub case_count : ℕ
  pub case_ids : List String

abbrev pub max_plan_shards : ℕ
max_plan_shards = 1024

abbrev pub shard_at : List String → ℕ → ℕ → Shard
shard_at ordered_cases count index =
    let shard_cases = stride count index ordered_cases in
    record {
      shard_index = index;
      shard_count = count;
      case_count = length shard_cases;
      case_ids = shard_cases;
    }

-- min(MAX_PLAN_SHARDS, max(1, cases))
abbrev pub maximum : ℕ → ℕ
maximum cases =
    let least = if leb 1 cases then cases else 1 in
    if leb max_plan_shards least then max_plan_shards else least

-- `_shards`; a shard count that is no positive number is 0.
unfoldable pub shards : List String → ℕ → Option (List Shard)
unfolding stride
shards case_ids count =
    if leb 1 count && leb count (maximum (length case_ids))
    then some (map (shard_at (sorted case_ids) count) (range count))
    else none

abbrev pub text_items : List String → Items
text_items [] = nil
text_items (x ∷ xs) = cons (str x) (text_items xs)

abbrev pub number : ℕ → Json
number n = int (pos n)

abbrev pub shard_dict : Shard → Json
shard_dict s = obj (
    field "shard_index" (number s.shard_index) (
      field "shard_count" (number s.shard_count) (
        field "case_count" (number s.case_count)
          (field "case_ids" (arr (text_items s.case_ids)) end))))

abbrev pub shard_items : List Shard → Items
shard_items [] = nil
shard_items (s ∷ ss) = cons (shard_dict s) (shard_items ss)

abbrev pub eval_plan_schema_version : String
eval_plan_schema_version = "eslams.eval.plan.v1"

pub record EvalPlanEnvelope : Type 0 where
  pub kind : String
  pub generated_at : String
  pub suite_fingerprint : String
  pub core_version : String
  pub runner_version : String
  pub registry_hash : String
  pub selected_providers : List String
  pub selected_models : List String
  pub selected_arenas : List String
  pub case_count_expected : ℕ
  pub plan_shards : List Shard
  pub required_environment_names : List String
  pub output_references : Items
  pub policy_ids : List String

-- The payload of `to_dict`, with the fields that come after it.
abbrev pub payload_then : EvalPlanEnvelope → Fields → Fields
payload_then p rest = field "schema_version" (str eval_plan_schema_version) (
    field "kind" (str p.kind) (
      field "generated_at" (str p.generated_at) (
        field "suite_fingerprint" (str p.suite_fingerprint) (
          field "core_version" (str p.core_version) (
            field "runner_version" (str p.runner_version) (
              field "registry_hash" (str p.registry_hash) (
                field "selected_providers" (arr (text_items p.selected_providers)) (
                  field "selected_models" (arr (text_items p.selected_models)) (
                    field "selected_arenas" (arr (text_items p.selected_arenas)) (
                      field "case_count_expected" (number p.case_count_expected) (
                        field "shards" (arr (shard_items p.plan_shards)) (
                          field "required_environment_names"
                            (arr (text_items p.required_environment_names))
                            (field "output_references" (arr p.output_references)
                              (field "policy_ids" (arr (text_items p.policy_ids)) rest))))))))))))))

module _ (sha256_json : Json → String) where
  -- `EvalPlanEnvelope.to_dict`
  unfoldable pub to_dict : EvalPlanEnvelope → Json
  to_dict p =
      obj (payload_then p (field "plan_hash" (str (sha256_json (obj (payload_then p end)))) end))
