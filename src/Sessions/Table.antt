-- ===== src/Sessions/Table.antt =====
-- The table of a session store: what lookups and deletions leave.
use e_slams.Prelude.{
  ==_iff, All, Bool-cases, List, String, [], ap, arith, eq_iff, false, inl, inr, is_some, length,
  refl, some, some-injective, str_eq, str_eq_sym, subst, sym, ℕ, ◌++◌, ◌==◌, ◌∙◌, ◌∷◌, ◌≡◌, ◌≤◌,
}
use e_slams.Sessions.{Session, delete, find, finds}
use e_slams.Sessions.Reaping.{Distinct, other_entries}

pub find-append :
    (id k : String) (r : ℕ) (t : List (String × ℕ))
    → is_some (find id t) ≡ false
    → str_eq k id ≡ false
    → is_some (find id (t ++ (k, r) ∷ [])) ≡ false
find-append id k r [] h e = rw e refl
find-append id k r ((j, x) ∷ t) h e = elim (Bool-cases (str_eq j id)) [
  | inl q ↦ absurd (let bad = rw q at h in cc)
  | inr q ↦ rw q (find-append id k r t (rw q at h) e)
]

pub Distinct-append :
    (t : List (String × ℕ)) (k : String) (r : ℕ)
    → Distinct t
    → is_some (find k t) ≡ false
    → Distinct (t ++ (k, r) ∷ [])
Distinct-append [] k r d h = (refl, tt)
Distinct-append ((j, x) ∷ t) k r (u, d) h = elim (Bool-cases (str_eq j k)) [
  | inl q ↦ absurd (let bad = rw q at h in cc)
  | inr q ↦ (find-append j k r t u (str_eq_sym j k q), Distinct-append t k r d (rw q at h))
]

-- What holds of all entries holds of the one that is found.
pub find-All {κ} :
    (P : String × ℕ → Type κ) (t : List (String × ℕ)) (id : String) (r : ℕ)
    → find id t ≡ some r
    → All P t
    → P (id, r)
find-All P [] id r e h = absurd cc
find-All P ((k, x) ∷ t) id r e (h, hs) = elim (Bool-cases (str_eq k id)) [
  | inl q ↦
      let e' : some x ≡ some r = rw q at e in
      let same : x ≡ r = some-injective x r e' in let key = (eq_iff k id).0 q in subst P (cc) h
  | inr q ↦ find-All P t id r (rw q at e) hs
]

pub All-delete {κ} :
    (P : String × ℕ → Type κ) (id : String) (t : List (String × ℕ)) → All P t → All P (delete id t)
All-delete P id [] h = tt
All-delete P id ((k, r) ∷ t) (h, hs) = elim (Bool-cases (str_eq k id)) [
  | inl q ↦ rw q hs
  | inr q ↦ rw q (h, All-delete P id t hs)
]

pub length-delete : (id : String) (t : List (String × ℕ)) → length (delete id t) ≤ length t
length-delete id [] = omega arith
length-delete id ((k, r) ∷ t) = let rest = length-delete id t in ground arith

find-delete_ne :
    (id j : String) (t : List (String × ℕ))
    → is_some (find j t) ≡ false
    → is_some (find j (delete id t)) ≡ false
find-delete_ne id j [] h = refl
find-delete_ne id j ((k, r) ∷ t) h = elim (Bool-cases (str_eq k j)) [
  | inl q ↦ absurd (let bad = rw q at h in cc)
  | inr q ↦
      let h' : is_some (find j t) ≡ false = rw q at h in
      elim (Bool-cases (str_eq k id)) [
        | inl z ↦ rw z h'
        | inr z ↦ rw (z, q) (find-delete_ne id j t h')
      ]
]

pub Distinct-delete : (id : String) (t : List (String × ℕ)) → Distinct t → Distinct (delete id t)
Distinct-delete id [] d = tt
Distinct-delete id ((k, r) ∷ t) (u, d) = elim (Bool-cases (str_eq k id)) [
  | inl q ↦ rw q d
  | inr q ↦ rw q (find-delete_ne id k t u, Distinct-delete id t d)
]

pub find-delete :
    (id : String) (t : List (String × ℕ)) → Distinct t → is_some (find id (delete id t)) ≡ false
find-delete id [] d = refl
find-delete id ((k, r) ∷ t) (u, d) = elim (Bool-cases (str_eq k id)) [
  | inl q ↦ let key = (eq_iff k id).0 q in rw q (rw key at u)
  | inr q ↦ rw (q, q) (find-delete id t d)
]

module _ {S : Type 0} (heap : ℕ → Session S) (id : String) (ref : ℕ)
    (named : (heap ref).session_id ≡ id) where
  apart : (k : String) (r : ℕ) → (heap r).session_id ≡ k → str_eq k id ≡ false → (r == ref) ≡ false
  apart k r n e = elim (Bool-cases (r == ref)) [
    | inr z ↦ z
    | inl z ↦
        let same = (==_iff r ref).0 z in
        let k_id : k ≡ id = sym n ∙ ap (λ x. (heap x).session_id) same ∙ named in
        let bad = (eq_iff k id).1 k_id in absurd cc
  ]

  -- Where the id does not stand for the object, no entry does.
  pub unlisted :
      (t : List (String × ℕ))
      → Distinct t
      → All (λ e. (heap e.1).session_id ≡ e.0) t
      → finds id ref t ≡ false
      → All (λ e. (e.1 == ref) ≡ false) t
  unlisted [] d n h = tt
  unlisted ((k, r) ∷ t) (u, d) (n, ns) h = elim (Bool-cases (str_eq k id)) [
    | inl q ↦
        let key = (eq_iff k id).0 q in
        let h' : (r == ref) ≡ false = rw (q, finds, find) at h in
        let u' : is_some (find id t) ≡ false = rw key at u in
        (h', other_entries t heap id ref named u' ns)
    | inr q ↦ (apart k r n q, unlisted t d ns (rw (q, finds, find) at h))
  ]
