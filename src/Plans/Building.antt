-- ===== src/Plans/Building.antt =====
-- The plans of src/eslams/planning.py: official, battlefield and public match. The registered
-- arenas and models and the hash are parameters, and so is which characters `str.strip` strips.
pub mod Cases
pub mod Accepted
use Prim.Native.Char.{Char, code}
use mathlib.Core.Option
use Prim.Native.String.{◌++◌ as append}
use e_slams.Prelude.{
  Bool, List, Option, String, [], all, false, if◌then◌else◌, length, map, none, not, some, str_eq,
  true, ℕ, ◌&&◌, ◌++◌, ◌==◌, ◌>>=◌, ◌||◌, ◌∷◌,
}
use e_slams.Json.{Fields, Items, Json, arr, cons, end, field, lookup, nil, obj, str}
use e_slams.Plans.{EvalPlanEnvelope, Shard, shards, sorted, text_items}
use e_slams.Plans.Validation.{mem}

-- sorted(set(xs))
pub unique : List String → List String
unfolding mem
unique [] = []
unique (x ∷ xs) = let rest = unique xs in if mem x xs then rest else x ∷ rest

abbrev is_colon : Char → Bool
is_colon c = code c == 58

unfoldable pub has_colon : String → Bool
has_colon String.[] = false
has_colon (String.◌∷◌ c s) = is_colon c || has_colon s

-- value.split(":", 1)[0], and what stands after the colon
pub before_colon : String → String
before_colon String.[] = String.[]
before_colon (String.◌∷◌ c s) =
    let rest = before_colon s in if is_colon c then String.[] else String.◌∷◌ c rest

pub after_colon : String → String
after_colon String.[] = String.[]
after_colon (String.◌∷◌ c s) = let rest = after_colon s in if is_colon c then s else rest

-- A record of the registry of provider models, with its `to_dict`.
pub record ModelRecord : Type 0 where
  pub provider : String
  pub model : String
  pub official_eval : Bool
  pub dict : Json

abbrev pub reference : ModelRecord → String
reference r = append r.provider (append ":" r.model)

abbrev pub filter {ℓ} : {A : Type ℓ} → (A → Bool) → List A → List A
filter p [] = []
filter p (x ∷ xs) = let rest = filter p xs in if p x then x ∷ rest else rest

abbrev pub all_in : List String → List String → Bool
all_in ys [] = true
all_in ys (x ∷ xs) = mem x ys && all_in ys xs

abbrev pub is_nil : List String → Bool
is_nil [] = true
is_nil (x ∷ xs) = false

-- f"{suite}:{model}:{arena_id}"
abbrev pub case_id : String → String → String → String
case_id suite model arena_id = append suite (append ":" (append model (append ":" arena_id)))

abbrev pub cases_of : String → List String → List String → List String
cases_of suite [] arenas = []
cases_of suite (m ∷ models) arenas = map (case_id suite m) arenas ++ cases_of suite models arenas

abbrev pub env_name : String → Option String
env_name provider =
    if str_eq provider "openai"
    then some "OPENAI_API_KEY"
    else if str_eq provider "anthropic"
    then some "ANTHROPIC_API_KEY"
    else if str_eq provider "google" || str_eq provider "gemini"
    then some "GEMINI_API_KEY"
    else none

abbrev pub env_names : List String → List String
env_names [] = []
env_names (p ∷ ps) = elim (env_name p) as (λ _. List String) [
  | none ↦ env_names ps
  | some name ↦ name ∷ env_names ps
]

-- `_provider_env_names`
pub provider_env_names : List String → List String
unfolding unique
provider_env_names providers = sorted (unique (env_names providers))

abbrev pub directory : String → Items
directory path =
    cons (obj (field "kind" (str "artifact_directory") (field "path" (str path) end))) nil

abbrev pub record_items : List ModelRecord → Items
record_items [] = nil
record_items (r ∷ rs) = cons r.dict (record_items rs)

module _ (sha256_json : Json → String) (is_space : Char → Bool) (available : List String)
    (models : List ModelRecord) where
  -- part.strip() is not empty
  has_text : String → Bool
  has_text String.[] = false
  has_text (String.◌∷◌ c s) = not (is_space c) || has_text s

  -- `_model_reference` of a text
  pub model_reference : String → Bool
  unfolding has_colon before_colon after_colon has_text
  model_reference value =
      has_colon value && has_text (before_colon value) && has_text (after_colon value)

  -- `_selected_arenas`
  pub selected_arenas_of : List String → Option (List String)
  unfolding unique
  selected_arenas_of arenas =
      if is_nil arenas || not (all_in available arenas) then none else some (sorted (unique arenas))

  abbrev pub envelope :
      String
      → Json
      → List String
      → List String
      → List String
      → List String
      → List String
      → Items
      → String
      → List Shard
      → EvalPlanEnvelope
  envelope kind suite providers references arenas case_ids env_providers outputs policy dealt =
      record {
        kind = kind;
        generated_at = "1970-01-01T00:00:00Z";
        suite_fingerprint = sha256_json suite;
        core_version = "0.7.0";
        runner_version = "eslams-runner:0.7.0";
        registry_hash = sha256_json (arr (record_items models));
        selected_providers = providers;
        selected_models = references;
        selected_arenas = arenas;
        case_count_expected = length case_ids;
        plan_shards = dealt;
        required_environment_names = provider_env_names env_providers;
        output_references = outputs;
        policy_ids = policy ∷ [];
      }

  abbrev official_models : List String → List String
  official_models providers =
      map reference (filter (λ r. mem r.provider providers && r.official_eval) models)

  -- `official_plan`
  pub official_plan : String → List String → List String → ℕ → Option EvalPlanEnvelope
  unfolding selected_arenas_of mem
  official_plan suite providers arenas count =
      if not (str_eq suite "public-smoke")
      then none
      else if is_nil providers || not (all_in (map (λ r. r.provider) models) providers)
      then none
      else do
        chosen ← selected_arenas_of arenas
        let references = official_models providers
        let case_ids = cases_of suite references chosen
        dealt ← shards case_ids count
        some (
            envelope "official"
              (obj (field "suite" (str suite) (field "arenas" (arr (text_items chosen)) end)))
              (sorted providers) references chosen case_ids providers (directory "runs/official")
              "official-eval-v1" dealt)

  -- `battlefield_plan`
  unfoldable pub battlefield_plan : List String → List String → ℕ → Option EvalPlanEnvelope
  unfolding selected_arenas_of model_reference unique
  battlefield_plan pairs arenas count =
      if is_nil pairs || not (all model_reference pairs) then none else do
        chosen ← selected_arenas_of arenas
        let normalized = sorted (unique pairs)
        let case_ids = cases_of "battlefield" normalized chosen
        let providers = sorted (unique (map before_colon (filter has_colon normalized)))
        dealt ← shards case_ids count
        some (
            envelope "battlefield"
              (obj (
                field "pairs" (arr (text_items normalized))
                  (field "arenas" (arr (text_items chosen)) end)))
              providers normalized chosen case_ids providers (directory "runs/battlefield")
              "battlefield-smoke-v1" dealt)

  -- request.get("models", []), a list of references
  abbrev all_texts : Items → Option (List String)
  all_texts nil = some []
  all_texts (cons (str s) xs) = elim (all_texts xs) as (λ _. Option (List String)) [
    | none ↦ none
    | some more ↦ some (s ∷ more)
  ]
  all_texts (cons _ xs) = none

  abbrev models_at : Option Json → Option (List String)
  models_at none = some []
  models_at (some (arr xs)) = all_texts xs
  models_at (some _) = none

  abbrev text_at : Option Json → Option String
  text_at (some (str s)) = some s
  text_at _ = none

  abbrev match_cases : String → List String → List String
  match_cases arena_id references =
      let ids = map (λ m. case_id "public-match" arena_id m) references in
      if is_nil ids then case_id "public-match" arena_id "local" ∷ [] else ids

  -- The plan of a match, once the request has been read.
  pub match_plan : Fields → String → List String → ℕ → Option EvalPlanEnvelope
  unfolding selected_arenas_of model_reference unique
  match_plan request arena_id given count =
      let references = sorted (unique given) in
      let case_ids = match_cases arena_id references in
      let providers = sorted (unique (map before_colon (filter has_colon references))) in
      if not (all model_reference given) then none else do
        chosen ← selected_arenas_of (arena_id ∷ [])
        dealt ← shards case_ids count
        some (
            envelope "public_match" (obj (field "request" (obj request) end)) providers references
              chosen case_ids providers (directory "runs/public-match") "public-match-v1" dealt)

  -- `public_match_plan` of the request in the file
  pub public_match_plan : Json → ℕ → Option EvalPlanEnvelope
  unfolding match_plan
  public_match_plan (obj request) count = do
    arena_id ← text_at (lookup "arena_id" request)
    given ← models_at (lookup "models" request)
    match_plan request arena_id given count
  public_match_plan _ count = none
