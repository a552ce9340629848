-- ===== src/Sessions/Finishing.antt =====
-- A call of a session store that has begun can always be brought on: no store is stuck.
use e_slams.Prelude.{
  &&_split, Bool, Bool-cases, List, Option, [], ap, arith, count_if, count_if-le, false, get_elem?,
  if_rule, inl, inr, ltb, ltb→lt, refl, remove_at, set, some, some-injective, suc, true, zero, ℕ,
  ◌+◌, ◌<◌, ◌==◌, ◌∙◌, ◌∷◌, ◌≡◌, ◌≤◌, ◌⊎◌,
}
use e_slams.Sessions.{
  Answer, Lease, Phase, Store, closing, end_lease, enter, has_lock, holds_lock, inside, is_locked,
  leaving, waiting,
}
use e_slams.Sessions.Events.{Event, closes, ends, enters, event, lease_event, leaves, on_lease}

-- An element that passes a test, where one is counted.
pub get_elem?-count_if {ℓ} :
    {A : Type ℓ} (p : A → Bool) (xs : List A)
    → 0 < count_if p xs
    → (i : ℕ) × (x : A) × (get_elem? xs i ≡ some x) × (p x ≡ true)
get_elem?-count_if p [] h = absurd (omega arith)
get_elem?-count_if p (x ∷ xs) h = elim (Bool-cases (p x)) [
  | inl e ↦ (0, x, refl, e)
  | inr e ↦
      let more : 0 < 0 + count_if p xs = rw e at h in
      let (i, y, at_i, q) = get_elem?-count_if p xs (omega arith) in (suc i, y, at_i, q)
]

abbrev locked_phase : Lease → Bool
locked_phase l = has_lock l.phase

-- The event brings a call on toward its end.
abbrev pub finishes : {S A : Type 0} → Event S A → Bool
finishes (enters i) = true
finishes (closes i) = true
finishes (leaves i) = true
finishes (ends i now) = true
finishes _ = false

-- The steps a call has left to take, at most.
abbrev pub steps_left : Phase → ℕ
steps_left waiting = 4
steps_left inside = 3
steps_left closing = 2
steps_left leaving = 1

abbrev pub waits : Lease → ℕ
waits l = steps_left l.phase

abbrev pub work : List Lease → ℕ
work [] = 0
work (l ∷ ls) = waits l + work ls

pub List-cases {ℓ} :
    {A : Type ℓ} (xs : List A) → (xs ≡ []) ⊎ ((y : A) × (ys : List A) × (xs ≡ y ∷ ys))
List-cases [] = inl refl
List-cases (x ∷ xs) = inr (x, xs, refl)

pub work-set :
    (ls : List Lease) (i : ℕ) (l m : Lease)
    → get_elem? ls i ≡ some l
    → work (set ls i m) + waits l ≡ work ls + waits m
work-set [] i l m h = absurd cc
work-set (x ∷ ls) zero l m h = let e = some-injective x l h in rw e (omega arith)
work-set (x ∷ ls) (suc i) l m h = omega (arith, work-set ls i l m h)

pub work-remove_at :
    (ls : List Lease) (i : ℕ) (l : Lease)
    → get_elem? ls i ≡ some l
    → work (remove_at ls i) + waits l ≡ work ls
work-remove_at [] i l h = absurd cc
work-remove_at (x ∷ ls) zero l h = let e = some-injective x l h in rw e (omega arith)
work-remove_at (x ∷ ls) (suc i) l h = omega (arith, work-remove_at ls i l h)

not_locked :
    {S : Type 0} (st : Store S) (ref : ℕ)
    → ltb 0 (count_if locked_phase st.leases) ≡ false
    → count_if (holds_lock ref) st.leases ≤ count_if locked_phase st.leases
    → is_locked st ref ≡ false
not_locked st ref h k = ground arith

module _ {S A : Type 0} (core_step : S → A → Option S) where
  -- A step that a call can take toward its end.
  abbrev pub Progress : Store S → Type 0
  Progress st =
      (e : Event S A) × (r : Store S × Answer) × (event core_step st e ≡ some r)
      × (finishes e ≡ true)
      × (work r.0.leases < work st.leases)

  on_lease_at :
      (st : Store S) (i : ℕ) (l : Lease) (phase : Phase) (e : Event S A)
      → get_elem? st.leases i ≡ some l
      → l.phase ≡ phase
      → on_lease core_step st i e ≡ lease_event core_step st i l phase e
  on_lease_at st i l phase e at_i in_phase =
      rw (at_i, on_lease) (ap (λ p. lease_event core_step st i l p e) in_phase)

  pub enter_less :
      (st : Store S) (i : ℕ) (l : Lease)
      → get_elem? st.leases i ≡ some l
      → l.phase ≡ waiting
      → work (enter st i l).0.leases < work st.leases
  unfolding enter
  enter_less st i l at_i in_phase =
      let four : waits l ≡ 4 = ap steps_left in_phase in
      if_rule {A = Store S × Answer} (λ r. work r.0.leases < work st.leases) (st.heap l.ref).closed
        (λ _. let w = work-set st.leases i l (record l { phase = leaving }) at_i in omega arith)
        (λ _. let w = work-set st.leases i l (record l { phase = inside }) at_i in omega arith)

  phase-Progress :
      (st : Store S) (i : ℕ) (l : Lease) (phase : Phase)
      → get_elem? st.leases i ≡ some l
      → l.phase ≡ phase
      → (phase ≡ waiting → is_locked st l.ref ≡ false)
      → Progress st
  unfolding event lease_event end_lease
  phase-Progress st i l waiting at_i in_phase free =
      let ready = free refl in
      (
        enters i,
        enter st i l,
        on_lease_at st i l waiting (enters i) at_i in_phase ∙ rw ready refl,
        refl,
        enter_less st i l at_i in_phase,
      )
  phase-Progress st i l inside at_i in_phase free =
      let three : waits l ≡ 3 = ap steps_left in_phase in
      let w = work-set st.leases i l (record l { phase = leaving }) at_i in
      (leaves i, _, on_lease_at st i l inside (leaves i) at_i in_phase, refl, omega arith)
  phase-Progress st i l closing at_i in_phase free =
      let two : waits l ≡ 2 = ap steps_left in_phase in
      let w = work-set st.leases i l (record l { phase = leaving }) at_i in
      (leaves i, _, on_lease_at st i l closing (leaves i) at_i in_phase, refl, omega arith)
  phase-Progress st i l leaving at_i in_phase free =
      let only : waits l ≡ 1 = ap steps_left in_phase in
      let w = work-remove_at st.leases i l at_i in
      (ends i 0, _, on_lease_at st i l leaving (ends i 0) at_i in_phase, refl, omega arith)

  pub progress : (st : Store S) (l : Lease) (ls : List Lease) → st.leases ≡ l ∷ ls → Progress st
  progress st l ls e = elim (Bool-cases (ltb 0 (count_if locked_phase st.leases))) [
    | inl q ↦
        let (i, m, at_i, has) = get_elem?-count_if locked_phase st.leases (ltb→lt _ _ q) in
        phase-Progress st i m m.phase at_i refl (λ z. absurd (let bad = rw z at has in cc))
    | inr q ↦ phase-Progress st 0 l l.phase (rw e refl) refl (λ _.
        let fewer : count_if (holds_lock l.ref) st.leases ≤ count_if locked_phase st.leases =
          count_if-le (holds_lock l.ref) locked_phase st.leases
            (λ x h. (&&_split (x.ref == l.ref) (has_lock x.phase) h).1) in
        not_locked st l.ref q fewer)
  ]
