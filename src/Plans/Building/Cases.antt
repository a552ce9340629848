-- ===== src/Plans/Building/Cases.antt =====
-- The case ids of a plan are distinct where its models and arenas are.
use Prim.Native.Char.{Char}
use Prim.Native.String.{◌++◌ as append}
use Prim.Native.String.append.{nil as append_nil, cons as append_cons}
use e_slams.Prelude.{
  All, All-append, All-count_if, All-map, All-zip, Bool-cases, List, String, [], ap, arith,
  count_if, count_if-zero, eq_iff, false, if◌then◌else◌, inl, inr, map, refl, str_eq, sym, true,
  ◌++◌, ◌+◌, ◌∙◌, ◌∷◌, ◌≡◌, ◌≢◌, ◌≤◌,
}
use e_slams.Plans.{sorted}
use e_slams.Plans.Sharding.{count_if-sorted}
use e_slams.Plans.Distinct.{IsDistinct}
use e_slams.Plans.Building.{case_id, cases_of, has_colon, unique}
use e_slams.Plans.Validation.{mem}

-- Each text differs from all later ones.
abbrev pub Unique : List String → Type 0
Unique [] = Unit
Unique (x ∷ xs) = All (λ y. x ≢ y) xs × Unique xs

pub Unique-IsDistinct : (xs : List String) → Unique xs → IsDistinct xs
Unique-IsDistinct [] u x = omega arith
Unique-IsDistinct (y ∷ ys) (new, u) x =
    let rest = Unique-IsDistinct ys u x in
    elim (Bool-cases (str_eq y x)) [
      | inr q ↦ rw q (omega arith)
      | inl q ↦
          let same = (eq_iff y x).0 q in
          let none_left =
            count_if-zero (λ z. str_eq z x) ys
              (All-map _ _ ys (λ z ne. apart z (λ e. ne (same ∙ sym e))) new) in
          rw q (omega arith)
    ]
  where
    apart : (z : String) → z ≢ x → str_eq z x ≡ false
    apart z ne = elim (Bool-cases (str_eq z x)) [
      | inr q ↦ q
      | inl q ↦ absurd (ne ((eq_iff z x).0 q))
    ]

pub IsDistinct-Unique : (xs : List String) → IsDistinct xs → Unique xs
IsDistinct-Unique [] d = tt
IsDistinct-Unique (y ∷ ys) d =
    let here = d y in
    let self = (eq_iff y y).1 refl in
    let once : 1 + count_if (λ z. str_eq z y) ys ≤ 1 = rw self at here in
    let others = All-count_if (λ z. str_eq z y) ys (omega arith) in
    (
      All-map _ _ ys (λ z other e. absurd (let same = (eq_iff z y).1 (sym e) in cc)) others,
      IsDistinct-Unique ys (λ x. let k = d x in omega arith),
    )

unique_count :
    (x : String) (xs : List String)
    → count_if (λ y. str_eq y x) (unique xs) ≡ (if mem x xs then 1 else 0)
unfolding unique
unique_count x [] = refl
unique_count x (y ∷ ys) =
    let rest = unique_count x ys in
    elim (Bool-cases (str_eq y x)) [
      | inl e ↦
          let same = (eq_iff y x).0 e in
          elim (Bool-cases (mem y ys)) [
            | inl q ↦ let here : mem x ys ≡ true = rw same at q in rw (q, e) (rest ∙ rw here refl)
            | inr q ↦
                let here : mem x ys ≡ false = rw same at q in
                let zero_left : count_if (λ y. str_eq y x) (unique ys) ≡ 0 = rest ∙ rw here refl in
                rw (q, e) (omega arith)
          ]
      | inr e ↦ elim (Bool-cases (mem y ys)) [
        | inl q ↦ rw (q, e) rest
        | inr q ↦ rw (q, e) (omega arith)
      ]
    ]

unique-IsDistinct : (xs : List String) → IsDistinct (unique xs)
unique-IsDistinct xs x =
    let k = unique_count x xs in
    elim (Bool-cases (mem x xs)) [
      | inl q ↦ let k' = rw q at k in omega arith
      | inr q ↦ let k' = rw q at k in omega arith
    ]

pub sorted-unique-Unique : (xs : List String) → Unique (sorted (unique xs))
sorted-unique-Unique xs = IsDistinct-Unique (sorted (unique xs)) (λ x.
    let d = unique-IsDistinct xs x in
    let same = count_if-sorted (λ y. str_eq y x) (unique xs) in omega arith)

Unique-append :
    (xs ys : List String)
    → Unique xs
    → Unique ys
    → All (λ x. All (λ y. x ≢ y) ys) xs
    → Unique (xs ++ ys)
Unique-append [] ys u v apart = v
Unique-append (x ∷ xs) ys (new, u) v (here, apart) =
    (All-append _ xs ys new here, Unique-append xs ys u v apart)

pub All-mapped {κ} :
    {A : Type 0} (P : String → Type κ) (f : A → String) (xs : List A)
    → All (λ x. P (f x)) xs
    → All P (map f xs)
All-mapped P f [] h = tt
All-mapped P f (x ∷ xs) (h, hs) = (h, All-mapped P f xs hs)

abbrev colon : Char
colon = ":"

append-colon : (x : String) → append ":" x ≡ String.◌∷◌ colon x
append-colon x =
    let k : append ":" x ≡ String.◌∷◌ colon (append "" x) = append_cons colon "" x in
    k ∙ ap (String.◌∷◌ colon) (append_nil x)

append-has_colon : (a x : String) → has_colon (append a (String.◌∷◌ colon x)) ≡ true
unfolding has_colon
append-has_colon String.[] x = rw append_nil refl
append-has_colon (String.◌∷◌ c a) x =
    let rest = append-has_colon a x in rw (append_cons c a) (ground arith)

-- Two texts of the form "a:x" whose last parts have no colon.
last_colon :
    (a b x y : String)
    → has_colon x ≡ false
    → has_colon y ≡ false
    → append a (String.◌∷◌ colon x) ≡ append b (String.◌∷◌ colon y)
    → (a ≡ b) × (x ≡ y)
last_colon String.[] String.[] x y p q h =
    let k : String.◌∷◌ colon x ≡ String.◌∷◌ colon y = simp append_nil at h in (refl, cc)
last_colon String.[] (String.◌∷◌ d b) x y p q h =
    let k : String.◌∷◌ colon x ≡ String.◌∷◌ d (append b (String.◌∷◌ colon y)) =
      simp (append_nil, append_cons) at h in
    let e : x ≡ append b (String.◌∷◌ colon y) = cc in
    absurd (let bad = append-has_colon b y in let p' = rw e at p in cc)
last_colon (String.◌∷◌ c a) String.[] x y p q h =
    let k : String.◌∷◌ c (append a (String.◌∷◌ colon x)) ≡ String.◌∷◌ colon y =
      simp (append_nil, append_cons) at h in
    let e : append a (String.◌∷◌ colon x) ≡ y = cc in
    absurd (let bad = append-has_colon a x in let q' = rw (← e) at q in cc)
last_colon (String.◌∷◌ c a) (String.◌∷◌ d b) x y p q h =
    let k : String.◌∷◌ c (append a (String.◌∷◌ colon x))
        ≡ String.◌∷◌ d (append b (String.◌∷◌ colon y)) =
      simp append_cons at h in
    let e : c ≡ d = cc in
    let rest : append a (String.◌∷◌ colon x) ≡ append b (String.◌∷◌ colon y) = cc in
    let (u, v) = last_colon a b x y p q rest in (rw (e, u) refl, v)

append-injective : (s a b : String) → append s a ≡ append s b → a ≡ b
append-injective String.[] a b h = simp append_nil at h
append-injective (String.◌∷◌ c s) a b h =
    let k : String.◌∷◌ c (append s a) ≡ String.◌∷◌ c (append s b) = simp append_cons at h in
    append-injective s a b cc

pub same_case :
    (suite m n x y : String)
    → has_colon x ≡ false
    → has_colon y ≡ false
    → case_id suite m x ≡ case_id suite n y
    → (m ≡ n) × (x ≡ y)
same_case suite m n x y p q h =
    let k = append-injective suite _ _ h in
    let l = append-injective ":" _ _ k in
    last_colon m n x y p q
      (sym (ap (append m) (append-colon x)) ∙ l ∙ ap (append n) (append-colon y))

Unique-case_ids :
    (suite m : String) (arenas : List String)
    → All (λ x. has_colon x ≡ false) arenas
    → Unique arenas
    → Unique (map (case_id suite m) arenas)
Unique-case_ids suite m [] plain u = tt
Unique-case_ids suite m (x ∷ xs) (p, ps) (new, u) = (
  All-mapped _ (case_id suite m) xs
      (All-zip _ _ _ xs (λ y q ne e. ne ((same_case suite m m x y p q e).1)) ps new),
  Unique-case_ids suite m xs ps u,
)

-- The cases of another model.
other_cases :
    (suite m : String) (x : String) (models arenas : List String)
    → has_colon x ≡ false
    → All (λ y. has_colon y ≡ false) arenas
    → All (λ n. m ≢ n) models
    → All (λ z. case_id suite m x ≢ z) (cases_of suite models arenas)
other_cases suite m x [] arenas p ps new = tt
other_cases suite m x (n ∷ models) arenas p ps (ne, new) =
    All-append _ (map (case_id suite n) arenas) (cases_of suite models arenas)
      (All-mapped _ (case_id suite n) arenas
        (All-map _ _ arenas (λ y q e. ne ((same_case suite m n x y p q e).0)) ps))
      (other_cases suite m x models arenas p ps new)

pub Unique-cases_of :
    (suite : String) (models arenas : List String)
    → All (λ x. has_colon x ≡ false) arenas
    → Unique arenas
    → Unique models
    → Unique (cases_of suite models arenas)
Unique-cases_of suite [] arenas plain u v = tt
Unique-cases_of suite (m ∷ models) arenas plain u (new, v) =
    Unique-append (map (case_id suite m) arenas) (cases_of suite models arenas)
      (Unique-case_ids suite m arenas plain u) (Unique-cases_of suite models arenas plain u v)
      (All-mapped _ (case_id suite m) arenas
        (All-map _ _ arenas (λ x p. other_cases suite m x models arenas p plain new) plain))
