-- ===== src/Prelude/Lists.antt =====
-- Lists measured and indexed by native numbers, under the library's names.
use Prim.Native.Nat.{ℕ, zero, suc, ◌+◌, ◌≤◌, ◌<◌}
use mathlib.Core.Path.{◌≡◌, refl, ap}
use mathlib.Core.Logic.{◌≢◌, ◌⊎◌, inl, inr}
use mathlib.Core.Bool.{Bool, true, false, ◌&&◌, ◌||◌}
use mathlib.Core.List.{List, [], ◌∷◌, ◌++◌}
use mathlib.Core.Option.{Option, none, some, some-injective}
use native.Mathlib.Omega.{arith}
use e_slams.Prelude.Tests.{==_iff, Bool-cases, ◌==◌, if◌then◌else◌}

module _ {ℓ} {A : Type ℓ} where
  abbrev pub length : List A → ℕ
  length [] = 0
  length (x ∷ xs) = suc (length xs)

  abbrev pub get_elem? : List A → ℕ → Option A
  get_elem? [] i = none
  get_elem? (x ∷ xs) zero = some x
  get_elem? (x ∷ xs) (suc i) = get_elem? xs i

  -- A write out of bounds changes nothing.
  abbrev pub set : List A → ℕ → A → List A
  set [] i v = []
  set (x ∷ xs) zero v = v ∷ xs
  set (x ∷ xs) (suc i) v = x ∷ set xs i v

  abbrev pub replicate : ℕ → A → List A
  replicate zero a = []
  replicate (suc n) a = a ∷ replicate n a

  abbrev pub All {κ} : (A → Type κ) → List A → Type κ
  All P [] = Unit
  All P (x ∷ xs) = P x × All P xs

  abbrev pub Any : (A → Type 0) → List A → Type 0
  Any P [] = ⊥
  Any P (x ∷ xs) = P x ⊎ Any P xs

  -- Python's `all(test(x) for x in xs)` and `any(...)`.
  abbrev pub all : (A → Bool) → List A → Bool
  all p [] = true
  all p (x ∷ xs) = p x && all p xs

  abbrev pub any : (A → Bool) → List A → Bool
  any p [] = false
  any p (x ∷ xs) = p x || any p xs

-- Python's `xs[i]` at an index in range, with a default that is never read there.
module _ {ℓ} {A : Type ℓ} where
  abbrev pub get_or : List A → ℕ → A → A
  get_or [] i d = d
  get_or (x ∷ xs) zero d = x
  get_or (x ∷ xs) (suc i) d = get_or xs i d

  pub length-append : (xs ys : List A) → length (xs ++ ys) ≡ length xs + length ys
  length-append [] ys = omega arith
  length-append (x ∷ xs) ys = omega (arith, length-append xs ys)

  pub length-set : (xs : List A) (i : ℕ) (v : A) → length (set xs i v) ≡ length xs
  length-set [] i v = refl
  length-set (x ∷ xs) zero v = refl
  length-set (x ∷ xs) (suc i) v = ap suc (length-set xs i v)

  pub get_or-set_self :
      (xs : List A) (i : ℕ) (v d : A) → i < length xs → get_or (set xs i v) i d ≡ v
  get_or-set_self [] i v d h = elim h [ ]
  get_or-set_self (x ∷ xs) zero v d h = refl
  get_or-set_self (x ∷ xs) (suc i) v d h = get_or-set_self xs i v d (omega arith)

  pub get_or-set_ne :
      (xs : List A) (i j : ℕ) (v d : A) → i ≢ j → get_or (set xs i v) j d ≡ get_or xs j d
  get_or-set_ne [] i j v d h = refl
  get_or-set_ne (x ∷ xs) zero zero v d h = absurd (h refl)
  get_or-set_ne (x ∷ xs) zero (suc j) v d h = refl
  get_or-set_ne (x ∷ xs) (suc i) zero v d h = refl
  get_or-set_ne (x ∷ xs) (suc i) (suc j) v d h = get_or-set_ne xs i j v d (λ e. h (ap suc e))

-- range(start, start + n)
abbrev pub range_from : ℕ → ℕ → List ℕ
range_from start zero = []
range_from start (suc n) = start ∷ range_from (suc start) n

abbrev pub range : ℕ → List ℕ
range n = range_from 0 n

abbrev pub sum : List ℕ → ℕ
sum [] = 0
sum (x ∷ xs) = x + sum xs

-- How many elements pass a test.
abbrev pub count_if {ℓ} : {A : Type ℓ} → (A → Bool) → List A → ℕ
count_if p [] = 0
count_if p (x ∷ xs) = (if p x then 1 else 0) + count_if p xs

-- `del xs[i]`
abbrev pub remove_at {ℓ} : {A : Type ℓ} → List A → ℕ → List A
remove_at [] i = []
remove_at (x ∷ xs) zero = xs
remove_at (x ∷ xs) (suc i) = x ∷ remove_at xs i

module _ {ℓ} {A : Type ℓ} where
  pub count_if-append :
      (p : A → Bool) (xs ys : List A) → count_if p (xs ++ ys) ≡ count_if p xs + count_if p ys
  count_if-append p [] ys = omega arith
  count_if-append p (x ∷ xs) ys = omega (arith, count_if-append p xs ys)

  pub count_if-set :
      (p : A → Bool) (xs : List A) (i : ℕ) (x y : A)
      → get_elem? xs i ≡ some x
      → count_if p (set xs i y) + (if p x then 1 else 0) ≡ count_if p xs + (if p y then 1 else 0)
  count_if-set p [] i x y h = absurd cc
  count_if-set p (z ∷ xs) zero x y h = let e = some-injective z x h in rw e (omega arith)
  count_if-set p (z ∷ xs) (suc i) x y h = omega (arith, count_if-set p xs i x y h)

  pub count_if-remove_at :
      (p : A → Bool) (xs : List A) (i : ℕ) (x : A)
      → get_elem? xs i ≡ some x
      → count_if p (remove_at xs i) + (if p x then 1 else 0) ≡ count_if p xs
  count_if-remove_at p [] i x h = absurd cc
  count_if-remove_at p (z ∷ xs) zero x h = let e = some-injective z x h in rw e (omega arith)
  count_if-remove_at p (z ∷ xs) (suc i) x h = omega (arith, count_if-remove_at p xs i x h)

  pub All-append {κ} : (P : A → Type κ) (xs ys : List A) → All P xs → All P ys → All P (xs ++ ys)
  All-append P [] ys h k = k
  All-append P (x ∷ xs) ys (h, hs) k = (h, All-append P xs ys hs k)

  pub All-set {κ} :
      (P : A → Type κ) (xs : List A) (i : ℕ) (y : A) → All P xs → P y → All P (set xs i y)
  All-set P [] i y h k = h
  All-set P (x ∷ xs) zero y (h, hs) k = (k, hs)
  All-set P (x ∷ xs) (suc i) y (h, hs) k = (h, All-set P xs i y hs k)

  pub All-remove_at {κ} : (P : A → Type κ) (xs : List A) (i : ℕ) → All P xs → All P (remove_at xs i)
  All-remove_at P [] i h = h
  All-remove_at P (x ∷ xs) zero (h, hs) = hs
  All-remove_at P (x ∷ xs) (suc i) (h, hs) = (h, All-remove_at P xs i hs)

  pub All-map {κ κ'} :
      (P : A → Type κ) (Q : A → Type κ') (xs : List A) → ((x : A) → P x → Q x) → All P xs → All Q xs
  All-map P Q [] f h = tt
  All-map P Q (x ∷ xs) f (h, hs) = (f x h, All-map P Q xs f hs)

  pub All-get_elem? {κ} :
      (P : A → Type κ) (xs : List A) (i : ℕ) (x : A) → get_elem? xs i ≡ some x → All P xs → P x
  All-get_elem? P [] i x e h = absurd cc
  All-get_elem? P (z ∷ xs) zero x e (h, hs) = let q = some-injective z x e in rw (← q) h
  All-get_elem? P (z ∷ xs) (suc i) x e (h, hs) = All-get_elem? P xs i x e hs

  pub All-zip {κ κ' κ''} :
      (P : A → Type κ) (Q : A → Type κ') (R : A → Type κ'') (xs : List A)
      → ((x : A) → P x → Q x → R x)
      → All P xs
      → All Q xs
      → All R xs
  All-zip P Q R [] f h k = tt
  All-zip P Q R (x ∷ xs) f (h, hs) (k, ks) = (f x h k, All-zip P Q R xs f hs ks)

  pub count_if-le :
      (p q : A → Bool) (xs : List A)
      → ((x : A) → p x ≡ true → q x ≡ true)
      → count_if p xs ≤ count_if q xs
  count_if-le p q [] h = omega arith
  count_if-le p q (x ∷ xs) h =
      let rest = count_if-le p q xs h in
      elim (Bool-cases (p x)) [ inl e ↦ rw (e, h x e) (omega arith) | inr e ↦ rw e (omega arith) ]

  pub count_if-zero : (p : A → Bool) (xs : List A) → All (λ x. p x ≡ false) xs → count_if p xs ≡ 0
  count_if-zero p [] h = refl
  count_if-zero p (x ∷ xs) (h, hs) = rw h (omega (arith, count_if-zero p xs hs))

  pub All-count_if : (p : A → Bool) (xs : List A) → count_if p xs ≡ 0 → All (λ x. p x ≡ false) xs
  All-count_if p [] h = tt
  All-count_if p (x ∷ xs) h = (ground arith, All-count_if p xs (omega arith))

  pub Any-append_left : (P : A → Type 0) (xs ys : List A) → Any P xs → Any P (xs ++ ys)
  Any-append_left P [] ys h = absurd h
  Any-append_left P (x ∷ xs) ys h = elim h [
    | inl q ↦ inl q
    | inr q ↦ inr (Any-append_left P xs ys q)
  ]

  pub Any-append_right : (P : A → Type 0) (xs ys : List A) → Any P ys → Any P (xs ++ ys)
  Any-append_right P [] ys h = h
  Any-append_right P (x ∷ xs) ys h = inr (Any-append_right P xs ys h)

  pub Any-map : (Q R : A → Type 0) (xs : List A) → ((x : A) → Q x → R x) → Any Q xs → Any R xs
  Any-map Q R [] f k = absurd k
  Any-map Q R (x ∷ xs) f k = elim k [ inl q ↦ inl (f x q) | inr q ↦ inr (Any-map Q R xs f q) ]

  -- What holds of all, of one that there is.
  pub All-Any {κ} :
      (P : A → Type κ) (Q : A → Type 0) (xs : List A) → All P xs → Any Q xs → (x : A) × P x × Q x
  All-Any P Q [] h k = absurd k
  All-Any P Q (x ∷ xs) (h, hs) k = elim k [ inl q ↦ (x, h, q) | inr q ↦ All-Any P Q xs hs q ]

  -- A count of fewer, where at least one is lost.
  pub count_if-lt :
      (p q : A → Bool) (xs : List A)
      → ((x : A) → p x ≡ true → q x ≡ true)
      → Any (λ x. (q x ≡ true) × (p x ≡ false)) xs
      → count_if p xs < count_if q xs
  count_if-lt p q [] h k = absurd k
  count_if-lt p q (x ∷ xs) h k = elim k [
    | inl (yes_q, no_p) ↦ let rest = count_if-le p q xs h in rw (yes_q, no_p) (omega arith)
    | inr later ↦
        let rest = count_if-lt p q xs h later in
        elim (Bool-cases (p x)) [ inl e ↦ rw (e, h x e) (omega arith) | inr e ↦ rw e (omega arith) ]
  ]

  pub count_if-length : (p : A → Bool) (xs : List A) → count_if p xs ≤ length xs
  count_if-length p [] = omega arith
  count_if-length p (x ∷ xs) = let rest = count_if-length p xs in ground arith

pub range_from-Any : (k n i : ℕ) → k ≤ i → i < k + n → Any (λ j. j ≡ i) (range_from k n)
range_from-Any k zero i le lt = absurd (omega arith)
range_from-Any k (suc n) i le lt = elim (Bool-cases (k == i)) [
  | inl z ↦ inl ((==_iff k i).0 z)
  | inr z ↦ inr (range_from-Any (suc k) n i (ground arith) (omega arith))
]
