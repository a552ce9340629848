-- ===== src/Plans/Shards.antt =====
-- The shards of a plan in JSON: what the loop of `validate_plan` (src/eslams/planning.py) has read.
use e_slams.Prelude.{
  &&_split, ==_iff, All, List, Option, String, [], ap, arith, count_if, guarded_some, length,
  map-some, none, refl, some, some-injective, subst, suc, sym, true, ℕ, ◌++◌, ◌==◌, ◌∷◌, ◌≡◌, ◌≢◌,
}
use e_slams.Json.{Fields, Items, Json, arr, bool, cons, float, int, lookup, nil, null, obj, str}
use e_slams.Plans.{number, text_items}
use e_slams.Plans.Acceptance.{is_empty, texts-text_items}
use e_slams.Plans.Validation.{all_ids, extend, ids_of, is_number, shard_ids, texts, texts_at}
use e_slams.Prelude.Int.{negsuc, pos}

-- A shard with these cases: its place, the number of shards and its size are those it says, and
-- no case id is empty.
pub record IsShard (index total : ℕ) (fs : Fields) (ids : List String) : Type 0 where
  pub lists : lookup "case_ids" fs ≡ some (arr (text_items ids))
  pub named : All (λ x. x ≢ String.[]) ids
  pub sized : lookup "case_count" fs ≡ some (number (length ids))
  pub numbered : lookup "shard_index" fs ≡ some (number index)
  pub of_total : lookup "shard_count" fs ≡ some (number total)

-- Shards numbered from `index` on, whose cases in this order are the given ones.
abbrev pub Deals : ℕ → ℕ → Items → List String → Type 0
Deals index total nil cases = cases ≡ []
Deals index total (cons shard rest) cases =
    (fs : Fields) × (ids : List String) × (more : List String) × (shard ≡ obj fs)
    × IsShard index total fs ids
    × Deals (suc index) total rest more
    × (cases ≡ ids ++ more)

texts-some :
    (xs : Items) (ids : List String)
    → texts xs ≡ some ids
    → (xs ≡ text_items ids) × All (λ x. x ≢ String.[]) ids
texts-some nil ids h =
    subst (λ l. (nil ≡ text_items l) × All (λ x. x ≢ String.[]) l) (some-injective _ _ h) (refl, tt)
texts-some (cons (str String.[]) xs) ids h = absurd cc
texts-some (cons (str (String.◌∷◌ c s)) xs) ids h =
    let (more, read, same) = map-some _ (texts xs) h in
    let (rest, named) = texts-some xs more read in
    subst (λ l. (cons (str (String.◌∷◌ c s)) xs ≡ text_items l) × All (λ x. x ≢ String.[]) l) same
      (ap (cons (str (String.◌∷◌ c s))) rest, (λ e. cc, named))
texts-some (cons null xs) ids h = absurd cc
texts-some (cons (bool b) xs) ids h = absurd cc
texts-some (cons (int n) xs) ids h = absurd cc
texts-some (cons (float x) xs) ids h = absurd cc
texts-some (cons (arr ys) xs) ids h = absurd cc
texts-some (cons (obj fs) xs) ids h = absurd cc

texts_at-some :
    (o : Option Json) (ids : List String)
    → texts_at o ≡ some ids
    → (o ≡ some (arr (text_items ids))) × All (λ x. x ≢ String.[]) ids
texts_at-some (some (arr xs)) ids h =
    let (same, named) = texts-some xs ids h in (ap (λ l. some (arr l)) same, named)
texts_at-some (some null) ids h = absurd cc
texts_at-some (some (bool b)) ids h = absurd cc
texts_at-some (some (int n)) ids h = absurd cc
texts_at-some (some (float x)) ids h = absurd cc
texts_at-some (some (str s)) ids h = absurd cc
texts_at-some (some (obj fs)) ids h = absurd cc
texts_at-some none ids h = absurd cc

is_number-some : (n : ℕ) (o : Option Json) → is_number n o ≡ true → o ≡ some (number n)
is_number-some n (some (int (pos m))) h =
    let same = (==_iff m n).0 h in ap (λ k. some (number k)) same
is_number-some n (some (int (negsuc m))) h = absurd cc
is_number-some n (some null) h = absurd cc
is_number-some n (some (bool b)) h = absurd cc
is_number-some n (some (float x)) h = absurd cc
is_number-some n (some (str s)) h = absurd cc
is_number-some n (some (arr xs)) h = absurd cc
is_number-some n (some (obj fs)) h = absurd cc
is_number-some n none h = absurd cc

shard_ids-some :
    (index total : ℕ) (fs : Fields) (o : Option (List String)) (ids : List String)
    → texts_at (lookup "case_ids" fs) ≡ o
    → shard_ids index total fs o ≡ some ids
    → IsShard index total fs ids
shard_ids-some index total fs none ids read h = absurd cc
shard_ids-some index total fs (some found) ids read h =
    let (checked, same) = guarded_some _ _ h in
    let (ab, c) = &&_split _ (is_number total (lookup "shard_count" fs)) checked in
    let (a, b) = &&_split (is_number (length found) (lookup "case_count" fs)) _ ab in
    let (lists, named) = texts_at-some (lookup "case_ids" fs) found read in
    subst (IsShard index total fs) same (record {
      lists = lists;
      named = named;
      sized = is_number-some (length found) (lookup "case_count" fs) a;
      numbered = is_number-some index (lookup "shard_index" fs) b;
      of_total = is_number-some total (lookup "shard_count" fs) c;
    })

ids_of-some :
    (index total : ℕ) (shard : Json) (ids : List String)
    → ids_of index total shard ≡ some ids
    → (fs : Fields) × (shard ≡ obj fs) × IsShard index total fs ids
ids_of-some index total (obj fs) ids h = (fs, refl, shard_ids-some index total fs _ ids refl h)
ids_of-some index total null ids h = absurd cc
ids_of-some index total (bool b) ids h = absurd cc
ids_of-some index total (int n) ids h = absurd cc
ids_of-some index total (float x) ids h = absurd cc
ids_of-some index total (str s) ids h = absurd cc
ids_of-some index total (arr xs) ids h = absurd cc

extend-some :
    (a b : Option (List String)) (cases : List String)
    → extend a b ≡ some cases
    → (ids : List String) × (more : List String) × (a ≡ some ids)
      × (b ≡ some more)
      × (cases ≡ ids ++ more)
extend-some (some ids) (some more) cases h = (ids, more, refl, refl, sym (some-injective _ _ h))
extend-some (some ids) none cases h = absurd cc
extend-some none (some more) cases h = absurd cc
extend-some none none cases h = absurd cc

-- What the loop reads are the cases of shards that say what they are.
pub all_ids-Deals :
    (index total : ℕ) (items : Items) (cases : List String)
    → all_ids index total items ≡ some cases
    → Deals index total items cases
unfolding all_ids
all_ids-Deals index total nil cases h = sym (some-injective _ _ h)
all_ids-Deals index total (cons shard rest) cases h =
    let (ids, more, here, later, same) =
      extend-some (ids_of index total shard) (all_ids (suc index) total rest) cases h in
    let (fs, is_obj, shard_ok) = ids_of-some index total shard ids here in
    (fs, ids, more, is_obj, shard_ok, all_ids-Deals (suc index) total rest more later, same)

-- And the loop reads all such shards.
shard-read :
    (index total : ℕ) (fs : Fields) (ids : List String)
    → IsShard index total fs ids
    → ids_of index total (obj fs) ≡ some ids
shard-read index total fs ids s =
    let lists = s.lists in
    let sized = s.sized in
    let numbered = s.numbered in
    let of_total = s.of_total in
    let read = texts-text_items ids (none_empty ids s.named) in
    let a : (length ids == length ids) ≡ true = ground arith in
    let b : (index == index) ≡ true = ground arith in
    let c : (total == total) ≡ true = ground arith in
    rw (lists, read, sized, numbered, of_total, a, b, c) refl
  where
    none_empty : (ids : List String) → All (λ x. x ≢ String.[]) ids → count_if is_empty ids ≡ 0
    none_empty [] h = refl
    none_empty (String.[] ∷ ids) (h, hs) = absurd (h refl)
    none_empty (String.◌∷◌ c s ∷ ids) (h, hs) = let rest = none_empty ids hs in omega arith

pub Deals-all_ids :
    (index total : ℕ) (items : Items) (cases : List String)
    → Deals index total items cases
    → all_ids index total items ≡ some cases
unfolding all_ids
Deals-all_ids index total nil cases h = ap some (sym h)
Deals-all_ids index total (cons shard rest) cases (fs, ids, more, is_obj, shard_ok, later, same) =
    let here = shard-read index total fs ids shard_ok in
    let others = Deals-all_ids (suc index) total rest more later in
    rw (is_obj, here, others) (ap some (sym same))
