-- ===== src/Sessions/Events.antt =====
-- The events of concurrent calls on a session store, and what the event of a call can do, in one rule.
use e_slams.Prelude.{
  Bool, Bool-cases, List, Option, String, [], false, get_elem?, if◌then◌else◌, inl, inr, none, refl,
  some, some-injective, subst, true, ℕ, ◌∷◌, ◌≡◌,
}
use e_slams.Sessions.{
  Answer, Lease, Phase, Store, advance, begin, close_session, closing, create, done, end_lease,
  enter, inside, is_locked, leaving, reap, set_phase, waiting,
}

-- What may happen next; the number is the place of a call in the list of leases.
pub data Event (S A : Type 0) : Type 0 where
  creates : String → S → ℕ → ℕ → Event S A
  begins : String → ℕ → Event S A
  enters : ℕ → Event S A
  steps : ℕ → A → ℕ → Event S A
  touches : ℕ → ℕ → Event S A
  closes : ℕ → Event S A
  leaves : ℕ → Event S A
  ends : ℕ → ℕ → Event S A
  pings : ℕ → Event S A

-- `core_step` of src/eslams/core_contract.py: the next state, where its response is ok.
module _ {S A : Type 0} (core_step : S → A → Option S) where
  -- An event of a call in its phase; `none` where the call cannot take it, or must wait.
  unfoldable pub lease_event : Store S → ℕ → Lease → Phase → Event S A → Option (Store S × Answer)
  unfolding enter end_lease close_session
  lease_event st i l waiting (enters _) = if is_locked st l.ref then none else some (enter st i l)
  lease_event st i l inside (steps _ action wall) =
      some (advance st l (core_step (st.heap l.ref).state action) wall, done)
  lease_event st i l inside (touches _ wall) = some (advance st l none wall, done)
  lease_event st i l inside (closes _) = some (close_session st i l, done)
  lease_event st i l inside (leaves _) = some (set_phase st i l leaving, done)
  lease_event st i l closing (leaves _) = some (set_phase st i l leaving, done)
  lease_event st i l leaving (ends _ now) = some (end_lease st i l now, done)
  lease_event st i l _ _ = none

  abbrev pub on_lease : Store S → ℕ → Event S A → Option (Store S × Answer)
  on_lease st i e = elim (get_elem? st.leases i) as (λ _. Option (Store S × Answer)) [
    | none ↦ none
    | some l ↦ lease_event st i l l.phase e
  ]

  unfoldable pub event : Store S → Event S A → Option (Store S × Answer)
  unfolding create begin reap lease_event
  event st (creates id state now wall) = some (create st id state now wall)
  event st (begins id now) = some (begin st id now)
  event st (pings now) = some (reap now st, done)
  event st (enters i) = on_lease st i (enters i)
  event st (leaves i) = on_lease st i (leaves i)
  event st (steps i action wall) = on_lease st i (steps i action wall)
  event st (touches i wall) = on_lease st i (touches i wall)
  event st (closes i) = on_lease st i (closes i)
  event st (ends i now) = on_lease st i (ends i now)

  -- The events of calls in the order they happen.
  unfoldable pub run : Store S → List (Event S A) → Option (Store S)
  unfolding event
  run st [] = some st
  run st (e ∷ es) = elim (event st e) as (λ _. Option (Store S)) [
    | none ↦ none
    | some r ↦ run r.0 es
  ]

abbrev pub is_closes : {S A : Type 0} → Event S A → Bool
is_closes (closes i) = true
is_closes _ = false

module _ {S A : Type 0} (core_step : S → A → Option S) where
  -- A claim about every result of a call's events, from what it says of each kind of step.
  pub lease_rule {κ} :
      (P : Store S × Answer → Type κ) (st : Store S) (i : ℕ) (l : Lease) (phase : Phase)
      (e : Event S A) (r : Store S × Answer)
      → (is_locked st l.ref ≡ false → P (enter st i l))
      → ((next : Option S) (wall : ℕ) → P (advance st l next wall, done))
      → (phase ≡ inside → is_closes e ≡ true → P (close_session st i l, done))
      → P (set_phase st i l leaving, done)
      → ((now : ℕ) → P (end_lease st i l now, done))
      → lease_event core_step st i l phase e ≡ some r
      → P r
  unfolding lease_event
  lease_rule P st i l waiting (creates _ _ _ _) r e_r a_r c_r l_r n_r ran = absurd cc
  lease_rule P st i l waiting (begins _ _) r e_r a_r c_r l_r n_r ran = absurd cc
  lease_rule P st i l waiting (enters _) r e_r a_r c_r l_r n_r ran =
      elim (Bool-cases (is_locked st l.ref)) [
        | inl q ↦ absurd (let none_left = rw q at ran in cc)
        | inr q ↦ subst P (some-injective _ _ (rw q at ran)) (e_r q)
      ]
  lease_rule P st i l waiting (steps _ action wall) r e_r a_r c_r l_r n_r ran = absurd cc
  lease_rule P st i l waiting (touches _ wall) r e_r a_r c_r l_r n_r ran = absurd cc
  lease_rule P st i l waiting (closes _) r e_r a_r c_r l_r n_r ran = absurd cc
  lease_rule P st i l waiting (leaves _) r e_r a_r c_r l_r n_r ran = absurd cc
  lease_rule P st i l waiting (ends _ now) r e_r a_r c_r l_r n_r ran = absurd cc
  lease_rule P st i l waiting (pings _) r e_r a_r c_r l_r n_r ran = absurd cc
  lease_rule P st i l inside (creates _ _ _ _) r e_r a_r c_r l_r n_r ran = absurd cc
  lease_rule P st i l inside (begins _ _) r e_r a_r c_r l_r n_r ran = absurd cc
  lease_rule P st i l inside (enters _) r e_r a_r c_r l_r n_r ran = absurd cc
  lease_rule P st i l inside (steps _ action wall) r e_r a_r c_r l_r n_r ran =
      subst P (some-injective _ _ ran) (a_r (core_step (st.heap l.ref).state action) wall)
  lease_rule P st i l inside (touches _ wall) r e_r a_r c_r l_r n_r ran =
      subst P (some-injective _ _ ran) (a_r none wall)
  lease_rule P st i l inside (closes _) r e_r a_r c_r l_r n_r ran =
      subst P (some-injective _ _ ran) (c_r refl refl)
  lease_rule P st i l inside (leaves _) r e_r a_r c_r l_r n_r ran =
      subst P (some-injective _ _ ran) l_r
  lease_rule P st i l inside (ends _ now) r e_r a_r c_r l_r n_r ran = absurd cc
  lease_rule P st i l inside (pings _) r e_r a_r c_r l_r n_r ran = absurd cc
  lease_rule P st i l closing (creates _ _ _ _) r e_r a_r c_r l_r n_r ran = absurd cc
  lease_rule P st i l closing (begins _ _) r e_r a_r c_r l_r n_r ran = absurd cc
  lease_rule P st i l closing (enters _) r e_r a_r c_r l_r n_r ran = absurd cc
  lease_rule P st i l closing (steps _ action wall) r e_r a_r c_r l_r n_r ran = absurd cc
  lease_rule P st i l closing (touches _ wall) r e_r a_r c_r l_r n_r ran = absurd cc
  lease_rule P st i l closing (closes _) r e_r a_r c_r l_r n_r ran = absurd cc
  lease_rule P st i l closing (leaves _) r e_r a_r c_r l_r n_r ran =
      subst P (some-injective _ _ ran) l_r
  lease_rule P st i l closing (ends _ now) r e_r a_r c_r l_r n_r ran = absurd cc
  lease_rule P st i l closing (pings _) r e_r a_r c_r l_r n_r ran = absurd cc
  lease_rule P st i l leaving (creates _ _ _ _) r e_r a_r c_r l_r n_r ran = absurd cc
  lease_rule P st i l leaving (begins _ _) r e_r a_r c_r l_r n_r ran = absurd cc
  lease_rule P st i l leaving (enters _) r e_r a_r c_r l_r n_r ran = absurd cc
  lease_rule P st i l leaving (steps _ action wall) r e_r a_r c_r l_r n_r ran = absurd cc
  lease_rule P st i l leaving (touches _ wall) r e_r a_r c_r l_r n_r ran = absurd cc
  lease_rule P st i l leaving (closes _) r e_r a_r c_r l_r n_r ran = absurd cc
  lease_rule P st i l leaving (leaves _) r e_r a_r c_r l_r n_r ran = absurd cc
  lease_rule P st i l leaving (ends _ now) r e_r a_r c_r l_r n_r ran =
      subst P (some-injective _ _ ran) (n_r now)
  lease_rule P st i l leaving (pings _) r e_r a_r c_r l_r n_r ran = absurd cc
