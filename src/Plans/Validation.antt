-- ===== src/Plans/Validation.antt =====
-- `validate_plan` of src/eslams/planning.py, on JSON values.
use mathlib.Core.Option
use e_slams.Prelude.{
  Bool, List, Option, String, [], false, if◌then◌else◌, length, none, some, str_eq, suc, ℕ, ◌&&◌,
  ◌++◌, ◌+◌, ◌==◌, ◌||◌, ◌∷◌,
}
use e_slams.Prelude.Int.{pos}
use e_slams.Json.{Fields, Items, Json, arr, cons, end, field, int, lookup, nil, obj, str}
use e_slams.Plans.{eval_plan_schema_version}

-- What `validate_plan` raises, by the message; `type_error` is what `in` raises for a kind that no
-- set can hold.
pub data Verdict : Type 0 where
  accepted : Verdict
  not_a_plan : Verdict
  unknown_kind : Verdict
  type_error : Verdict
  no_shards : Verdict
  invalid_shard : Verdict
  inconsistent_totals : Verdict
  wrong_hash : Verdict

abbrev pub is_text : String → Option Json → Bool
is_text text (some (str s)) = str_eq s text
is_text text _ = false

-- A list of texts, none of them empty.
abbrev pub texts : Items → Option (List String)
texts nil = some []
texts (cons (str String.[]) xs) = none
texts (cons (str (String.◌∷◌ c s)) xs) = Option.map (λ ids. String.◌∷◌ c s ∷ ids) (texts xs)
texts (cons _ xs) = none

abbrev pub texts_at : Option Json → Option (List String)
texts_at (some (arr xs)) = texts xs
texts_at _ = none

abbrev pub is_number : ℕ → Option Json → Bool
is_number n (some (int (pos m))) = m == n
is_number n _ = false

-- The case ids of one shard, where its identity and count are right.
abbrev pub shard_ids : ℕ → ℕ → Fields → Option (List String) → Option (List String)
shard_ids index total fs none = none
shard_ids index total fs (some ids) =
    if is_number (length ids) (lookup "case_count" fs)
      && is_number index (lookup "shard_index" fs)
      && is_number total (lookup "shard_count" fs)
    then some ids
    else none

abbrev pub ids_of : ℕ → ℕ → Json → Option (List String)
ids_of index total (obj fs) = shard_ids index total fs (texts_at (lookup "case_ids" fs))
ids_of index total _ = none

-- cases.extend(ids)
abbrev pub extend : Option (List String) → Option (List String) → Option (List String)
extend (some ids) (some more) = some (ids ++ more)
extend _ _ = none

-- The loop over the shards; a shard that is refused ends it.
unfoldable pub all_ids : ℕ → ℕ → Items → Option (List String)
unfolding lookup
all_ids index total nil = some []
all_ids index total (cons shard rest) =
    extend (ids_of index total shard) (all_ids (suc index) total rest)

unfoldable pub mem : String → List String → Bool
mem x [] = false
mem x (y ∷ ys) = str_eq y x || mem x ys

-- len(set(xs))
unfoldable pub distinct_count : List String → ℕ
unfolding mem
distinct_count [] = 0
distinct_count (x ∷ xs) = (if mem x xs then 0 else 1) + distinct_count xs

pub data KindTest : Type 0 where
  known unknown unhashable : KindTest

-- value.get("kind") not in {"official", "battlefield", "public_match"}
abbrev pub kind_test : Option Json → KindTest
kind_test (some (str s)) =
    if str_eq s "official" || str_eq s "battlefield" || str_eq s "public_match"
    then known
    else unknown
kind_test (some (arr xs)) = unhashable
kind_test (some (obj fs)) = unhashable
kind_test _ = unknown

abbrev pub count_of : Option Json → Option ℕ
count_of (some (int (pos n))) = some n
count_of _ = none

-- A list that is not empty.
abbrev pub shards_of : Option Json → Option Items
shards_of (some (arr (cons x xs))) = some (cons x xs)
shards_of _ = none

abbrev pub count_items : Items → ℕ
count_items nil = 0
count_items (cons x xs) = suc (count_items xs)

-- {key: item for key, item in value.items() if key != name}
abbrev pub without : String → Fields → Fields
without name end = end
without name (field k v fs) = if str_eq k name then without name fs else field k v (without name fs)

module _ (sha256_json : Json → String) where
  abbrev pub hash_verdict : Fields → Verdict
  hash_verdict fs =
      if is_text (sha256_json (obj (without "plan_hash" fs))) (lookup "plan_hash" fs)
      then accepted
      else wrong_hash

  abbrev pub cases_verdict : Fields → ℕ → Option (List String) → Verdict
  cases_verdict fs count none = invalid_shard
  cases_verdict fs count (some cases) =
      if length cases == count && distinct_count cases == count
      then hash_verdict fs
      else inconsistent_totals

  abbrev pub shards_verdict : Fields → Option ℕ → Option Items → Verdict
  shards_verdict fs (some count) (some items) =
      cases_verdict fs count (all_ids 0 (count_items items) items)
  shards_verdict fs _ _ = no_shards

  abbrev pub kind_verdict : Fields → KindTest → Verdict
  kind_verdict fs known =
      shards_verdict fs (count_of (lookup "case_count_expected" fs))
        (shards_of (lookup "shards" fs))
  kind_verdict fs unknown = unknown_kind
  kind_verdict fs unhashable = type_error

  -- `validate_plan`
  unfoldable pub validate_plan : Json → Verdict
  unfolding lookup all_ids distinct_count
  validate_plan (obj fs) =
      if is_text eval_plan_schema_version (lookup "schema_version" fs)
      then kind_verdict fs (kind_test (lookup "kind" fs))
      else not_a_plan
  validate_plan _ = not_a_plan
