-- ===== src/Sessions/Refinement.antt =====
-- A session store is a map from ids to states: each event does to it what the map's operation does.
use e_slams.Prelude.{
  ==_iff, Bool, Bool-cases, List, Option, Option-cases, String, [], ap, arith, eq_iff, false,
  get_elem?, if_rule, if◌then◌else◌, inl, inr, is_some, none, refl, some, some-injective, str_eq,
  str_eq_sym, subst, sym, true, ℕ, ◌++◌, ◌==◌, ◌>>=◌, ◌∙◌, ◌∷◌, ◌≡◌,
}
use e_slams.Sessions.{
  Answer, Lease, Session, Store, advance, close_session, closed_session, delete, done, end_lease,
  enter, find, finds, write,
}
use e_slams.Arena.{other}
use e_slams.Sessions.Admission.{write_self}
use e_slams.Sessions.Reaping.{write-keeps, write_ne}
use e_slams.Sessions.Sound.{IsSound}
use e_slams.Sessions.Table.{find-All, find-delete}
use e_slams.Sessions.Events.{Event, closes, creates, steps}

-- The state that an id stands for.
abbrev pub view : {S : Type 0} → Store S → String → Option S
view st id = find id st.table >>= λ r. some (st.heap r).state

-- The operations of a map.
pub data Op (S : Type 0) : Type 0 where
  keep : Op S
  put : String → S → Op S
  update : String → (S → S) → Op S
  remove : String → Op S

abbrev pub apply : {S : Type 0} → Op S → (String → Option S) → String → Option S
apply keep m x = m x
apply (put id s) m x = if str_eq id x then some s else m x
apply (update id f) m x = if str_eq id x then (m x >>= λ s. some (f s)) else m x
apply (remove id) m x = if str_eq id x then none else m x

abbrev pub or_same : {S : Type 0} → S → Option S → S
or_same s none = s
or_same s (some t) = t

abbrev pub is_done : Answer → Bool
is_done done = true
is_done _ = false

module _ {S A : Type 0} (core_step : S → A → Option S) where
  -- What the call of a lease does to the map.
  abbrev pub lease_op : Event S A → Lease → Op S
  lease_op (steps i action wall) l = update l.id (λ s. or_same s (core_step s action))
  lease_op (closes i) l = remove l.id
  lease_op _ l = keep

  -- What an event does to the map, by its arguments, the id of its call and what it was answered.
  abbrev pub op_of : List Lease → Event S A → Answer → Op S
  op_of ls (creates id state now wall) answer = if is_done answer then put id state else keep
  op_of ls (steps i action wall) answer = elim (get_elem? ls i) as (λ _. Op S) [
    | none ↦ keep
    | some l ↦ lease_op (steps i action wall) l
  ]
  op_of ls (closes i) answer = elim (get_elem? ls i) as (λ _. Op S) [
    | none ↦ keep
    | some l ↦ lease_op (closes i) l
  ]
  op_of ls _ answer = keep

pub find_ne :
    (x id : String) (t : List (String × ℕ)) → str_eq id x ≡ false → find x (delete id t) ≡ find x t
find_ne x id [] h = refl
find_ne x id ((k, r) ∷ t) h = elim (Bool-cases (str_eq k id)) [
  | inl q ↦
      let key = (eq_iff k id).0 q in let other : str_eq k x ≡ false = rw key h in rw (q, other) refl
  | inr q ↦ elim (Bool-cases (str_eq k x)) [
    | inl z ↦ rw (q, z) refl
    | inr z ↦ rw (q, z) (find_ne x id t h)
  ]
]

pub find-none :
    (id : String) (t : List (String × ℕ)) → is_some (find id t) ≡ false → find id t ≡ none
find-none id t h = elim (Option-cases (find id t)) [
  | inl q ↦ q
  | inr (r, q) ↦ absurd (let bad = rw q at h in cc)
]

pub find_new :
    (x id : String) (ref : ℕ) (t : List (String × ℕ))
    → find id t ≡ none
    → find x (t ++ (id, ref) ∷ []) ≡ (if str_eq id x then some ref else find x t)
find_new x id ref [] h = refl
find_new x id ref ((k, r) ∷ t) h = elim (Bool-cases (str_eq k id)) [
  | inl q ↦ absurd (let bad = rw q at h in cc)
  | inr q ↦
      let h' : find id t ≡ none = rw q at h in
      let rest = find_new x id ref t h' in
      elim (Bool-cases (str_eq k x)) [
        | inr z ↦ rw z rest
        | inl z ↦
            let key = (eq_iff k x).0 z in
            let other : str_eq id x ≡ false = str_eq_sym x id (rw (← key) q) in rw (z, other) refl
      ]
]

pub into {ℓ} :
    {S : Type 0} (P : Store S × Answer → Type ℓ) {x y : Store S × Answer}
    → some x ≡ some y
    → P x
    → P y
into P e h = subst P (some-injective _ _ e) h

pub finds-some :
    (id : String) (ref : ℕ) (t : List (String × ℕ)) → finds id ref t ≡ true → find id t ≡ some ref
finds-some id ref t h = elim (Option-cases (find id t)) [
  | inl q ↦ absurd (let bad = rw (q, finds) at h in cc)
  | inr (r, q) ↦
      let same : (r == ref) ≡ true = rw (q, finds) at h in q ∙ ap some ((==_iff r ref).0 same)
]

pub some-finds :
    (id : String) (ref : ℕ) (t : List (String × ℕ)) → find id t ≡ some ref → finds id ref t ≡ true
some-finds id ref t h = rw (h, finds) (ground arith)

module _ {S : Type 0} where
  pub same_state-view :
      (st : Store S) (ref : ℕ) (s : Session S) (x : String)
      → s.state ≡ (st.heap ref).state
      → view (record st { heap = write st.heap ref s }) x ≡ view st x
  same_state-view st ref s x e = elim (Option-cases (find x st.table)) [
    | inl q ↦ rw q refl
    | inr (r, q) ↦ rw q (ap some (write-keeps (λ y. y.state) st.heap ref s r e))
  ]

  pub enter-view :
      (st : Store S) (i : ℕ) (l : Lease) (x : String) → view (enter st i l).0 x ≡ view st x
  unfolding enter
  enter-view st i l x =
      if_rule {A = Store S × Answer} (λ r. view r.0 x ≡ view st x) (st.heap l.ref).closed
        (λ _. refl) (λ _. refl)

  pub end_lease-view :
      (st : Store S) (i : ℕ) (l : Lease) (now : ℕ) (x : String)
      → view (end_lease st i l now) x ≡ view st x
  unfolding end_lease
  end_lease-view st i l now x = same_state-view st l.ref _ x refl

  -- An entry of another id is of another object.
  other_ref :
      (st : Store S) (x id : String) (r ref : ℕ)
      → IsSound st
      → (st.heap ref).session_id ≡ id
      → find x st.table ≡ some r
      → (r == ref) ≡ true
      → id ≡ x
  other_ref st x id r ref sound named found same =
      let own = find-All _ st.table x r found sound.named in
      let eq = (==_iff r ref).0 same in sym named ∙ ap (λ z. (st.heap z).session_id) (sym eq) ∙ own

  view-advance :
      (st : Store S) (l : Lease) (next : Option S) (wall : ℕ) (x : String)
      → view (advance st l next wall) x
        ≡ (find x st.table >>= λ r. some ((advance st l next wall).heap r).state)
  view-advance st l none wall x = refl
  view-advance st l (some s) wall x = refl

  advance_self :
      (st : Store S) (l : Lease) (next : Option S) (wall : ℕ)
      → ((advance st l next wall).heap l.ref).state ≡ or_same (st.heap l.ref).state next
  advance_self st l none wall = write_self (λ y. y.state) st.heap l.ref _
  advance_self st l (some s) wall = write_self (λ y. y.state) st.heap l.ref _

  advance_ne :
      (st : Store S) (l : Lease) (next : Option S) (wall r : ℕ)
      → (r == l.ref) ≡ false
      → ((advance st l next wall).heap r).state ≡ (st.heap r).state
  advance_ne st l none wall r h = write_ne (λ y. y.state) st.heap l.ref _ r h
  advance_ne st l (some s) wall r h = write_ne (λ y. y.state) st.heap l.ref _ r h

  -- The view of an id that does not stand for the object.
  aside-view :
      (st : Store S) (l : Lease) (next : Option S) (wall : ℕ) (x : String)
      → ((r : ℕ) → find x st.table ≡ some r → (r == l.ref) ≡ true → ⊥)
      → view (advance st l next wall) x ≡ view st x
  aside-view st l next wall x apart =
      view-advance st l next wall x
      ∙ (elim (Option-cases (find x st.table))
          as (λ _.
            (find x st.table >>= λ r. some ((advance st l next wall).heap r).state) ≡ view st x) [
              | inl q ↦ rw q refl
              | inr (r, q) ↦ rw q (
                  ap some (
                    advance_ne st l next wall r (elim (Bool-cases (r == l.ref)) [
                      | inr z ↦ z
                      | inl z ↦ absurd (apart r q z)
                    ])))
            ])

module _ {S A : Type 0} (core_step : S → A → Option S) where
  pub step-view :
      (st : Store S) (l : Lease) (action : A) (wall : ℕ) (x : String) (i : ℕ)
      → IsSound st
      → (st.heap l.ref).session_id ≡ l.id
      → finds l.id l.ref st.table ≡ true
      → view (advance st l (core_step (st.heap l.ref).state action) wall) x
        ≡ apply (lease_op core_step (steps i action wall) l) (view st) x
  step-view st l action wall x i sound named q =
      let next = core_step (st.heap l.ref).state action in
      let listed = finds-some l.id l.ref st.table q in
      elim (Bool-cases (str_eq l.id x)) [
        | inr other ↦ rw other (
            aside-view st l next wall x (λ r found same.
              let id = other_ref st x l.id r l.ref sound named found same in
              let bad = (eq_iff l.id x).1 id in absurd cc))
        | inl here ↦
            let id = (eq_iff l.id x).0 here in
            let found : find x st.table ≡ some l.ref =
              ap (λ z. find z st.table) (sym id) ∙ listed in
            rw here
              (view-advance st l next wall x ∙ rw found (ap some (advance_self st l next wall)))
      ]

  pub close-view :
      (st : Store S) (i : ℕ) (l : Lease) (x : String)
      → IsSound st
      → finds l.id l.ref st.table ≡ true
      → view (close_session st i l) x ≡ apply (lease_op core_step (closes i) l) (view st) x
  unfolding close_session
  close-view st i l x sound q = elim (Bool-cases (str_eq l.id x)) [
    | inl here ↦
        let id = (eq_iff l.id x).0 here in
        let gone : find x (delete l.id st.table) ≡ none =
          ap (λ z. find z (delete l.id st.table)) (sym id)
          ∙ find-none l.id _ (find-delete l.id st.table sound.distinct) in
        rw (q, here, gone) refl
    | inr other ↦
        let same = find_ne x l.id st.table other in
        rw (q, other, same) (same_state-view st l.ref (closed_session (st.heap l.ref)) x refl)
  ]
