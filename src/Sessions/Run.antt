-- ===== src/Sessions/Run.antt =====
-- Every run of a session store keeps it sound, and leaves the session of a lease open.
use e_slams.Prelude.{
  List, Option, Option-cases, String, [], arith, get_elem?, inl, inr, none, refl, some,
  some-injective, subst, ℕ, ◌∷◌, ◌≡◌,
}
use e_slams.Sessions.{Answer, Store, begin, find, new_store, reap, take_lease}
use e_slams.Sessions.Sound.{IsSound, IsWithin, reap-IsSound}
use e_slams.Sessions.Events.{
  Event, begins, closes, creates, ends, enters, event, lease_rule, leaves, on_lease, pings, run,
  steps, touches,
}
use e_slams.Sessions.Calls.{
  advance-IsSound, end_lease-IsSound, enter-IsSound, leaving-IsSound, take_lease-IsSound,
}
use e_slams.Sessions.Admission.{create-IsSound}
use e_slams.Sessions.Closing.{close_session-IsSound}

module _ {S : Type 0} where
  begin-IsSound : (st : Store S) (id : String) (now : ℕ) → IsSound st → IsSound (begin st id now).0
  unfolding begin take_lease
  begin-IsSound st id now sound =
      let sound' = reap-IsSound now st sound in
      elim (Option-cases (find id (reap now st).table)) [
        | inl e ↦ rw e sound'
        | inr (r, e) ↦ rw e (take_lease-IsSound (reap now st) id r e sound')
      ]

none-IsWithin : (max : Option ℕ) → IsWithin max 0
none-IsWithin none = tt
none-IsWithin (some n) = omega arith

done_IsSound :
    {S : Type 0} {r : Store S × Answer} {x : Store S × Answer}
    → some x ≡ some r
    → IsSound x.0
    → IsSound r.0
done_IsSound e sound = let same = some-injective _ _ e in subst (λ p. IsSound p.0) same sound

module _ {S A : Type 0} (core_step : S → A → Option S) where
  on_lease-IsSound :
      (st : Store S) (i : ℕ) (e : Event S A) (r : Store S × Answer)
      → on_lease core_step st i e ≡ some r
      → IsSound st
      → IsSound r.0
  on_lease-IsSound st i e r ran sound = elim (Option-cases (get_elem? st.leases i)) [
    | inl q ↦ absurd (let bad = rw (q, on_lease) at ran in cc)
    | inr (l, q) ↦
        lease_rule core_step (λ x. IsSound x.0) st i l l.phase e r
          (λ free. enter-IsSound st i l q free sound)
          (λ next wall. advance-IsSound st l next wall sound)
          (λ working _. close_session-IsSound st i l q working sound)
          (leaving-IsSound st i l q sound) (λ now. end_lease-IsSound st i l now q sound)
          (rw (q, on_lease) at ran)
  ]

  event-IsSound :
      (st : Store S) (e : Event S A) (r : Store S × Answer)
      → event core_step st e ≡ some r
      → IsSound st
      → IsSound r.0
  unfolding event
  event-IsSound st (creates id state now wall) r ran sound =
      done_IsSound ran (create-IsSound st id state now wall sound)
  event-IsSound st (begins id now) r ran sound = done_IsSound ran (begin-IsSound st id now sound)
  event-IsSound st (pings now) r ran sound = done_IsSound ran (reap-IsSound now st sound)
  event-IsSound st (enters i) r ran sound = on_lease-IsSound st i (enters i) r ran sound
  event-IsSound st (steps i action wall) r ran sound =
      on_lease-IsSound st i (steps i action wall) r ran sound
  event-IsSound st (touches i wall) r ran sound = on_lease-IsSound st i (touches i wall) r ran sound
  event-IsSound st (leaves i) r ran sound = on_lease-IsSound st i (leaves i) r ran sound
  event-IsSound st (closes i) r ran sound = on_lease-IsSound st i (closes i) r ran sound
  event-IsSound st (ends i now) r ran sound = on_lease-IsSound st i (ends i now) r ran sound

  pub run-IsSound :
      (st st' : Store S) (es : List (Event S A))
      → run core_step st es ≡ some st'
      → IsSound st
      → IsSound st'
  unfolding run
  run-IsSound st st' [] h sound = let same = some-injective st st' h in subst IsSound same sound
  run-IsSound st st' (e ∷ es) h sound = elim (Option-cases (event core_step st e)) [
    | inl q ↦ absurd (let bad = rw (q, run) at h in cc)
    | inr (r, q) ↦ run-IsSound r.0 st' es (rw (q, run) at h) (event-IsSound st e r q sound)
  ]

  new_store-IsSound : (max ttl : Option ℕ) (s : S) → IsSound (new_store max ttl s)
  unfolding new_store
  new_store-IsSound max ttl s = record {
    distinct = tt;
    open_table = tt;
    named = tt;
    allocated = tt;
    within = none-IsWithin max;
    lease_named = tt;
    lease_allocated = tt;
    counted = λ r. refl;
    exclusive = λ r. omega arith;
    working = tt;
  }

  -- Calls of a new store that interleave in any order leave it sound.
  pub calls-IsSound :
      (max ttl : Option ℕ) (s : S) (es : List (Event S A)) (st : Store S)
      → run core_step (new_store max ttl s) es ≡ some st
      → IsSound st
  calls-IsSound max ttl s es st h =
      run-IsSound (new_store max ttl s) st es h (new_store-IsSound max ttl s)
