-- ===== src/Sessions/Ending.antt =====
-- The calls of a session store end: what brings them on runs out, and stops only when none is left.
use e_slams.Prelude.{
  &&_split, All, Bool-cases, List, Option, Option-cases, [], all, ap, arith, count_if, false,
  get_elem?, inl, inr, length, refl, some, some-injective, subst, true, ℕ, ◌+◌, ◌<◌, ◌∙◌, ◌∷◌, ◌≡◌,
  ◌≤◌, ◌⊎◌,
}
use e_slams.Sessions.{
  Answer, Lease, Phase, Store, close_session, closing, end_lease, inside, is_locked, leaving,
  new_store, set_phase, waiting,
}
use e_slams.Sessions.Sound.{IsSound, of_ref}
use e_slams.Sessions.Run.{calls-IsSound, run-IsSound}
use e_slams.Sessions.Events.{
  Event, begins, closes, creates, ends, enters, event, lease_event, leaves, on_lease, pings, run,
  steps, touches,
}
use e_slams.Sessions.Finishing.{
  List-cases, Progress, enter_less, finishes, progress, steps_left, waits, work, work-remove_at,
  work-set,
}

module _ {S A : Type 0} (core_step : S → A → Option S) where
  -- A claim about a result, from its value.
  result_less :
      (st : Store S) {x r : Store S × Answer}
      → some x ≡ some r
      → work x.0.leases < work st.leases
      → work r.0.leases < work st.leases
  result_less st e less = subst (λ y. work y.0.leases < work st.leases) (some-injective _ _ e) less

  -- A later phase leaves less to do.
  phase_less :
      (st : Store S) (i : ℕ) (l : Lease) (phase next : Phase)
      → get_elem? st.leases i ≡ some l
      → l.phase ≡ phase
      → steps_left next < steps_left phase
      → work (set_phase st i l next).leases < work st.leases
  phase_less st i l phase next at_i in_phase later =
      let now : waits l ≡ steps_left phase = ap steps_left in_phase in
      let w = work-set st.leases i l (record l { phase = next }) at_i in omega arith

  lease_less :
      (st : Store S) (i : ℕ) (l : Lease) (phase : Phase) (e : Event S A) (r : Store S × Answer)
      → get_elem? st.leases i ≡ some l
      → l.phase ≡ phase
      → finishes e ≡ true
      → lease_event core_step st i l phase e ≡ some r
      → work r.0.leases < work st.leases
  unfolding lease_event close_session end_lease
  lease_less st i l phase (creates _ _ _ _) r at_i p f ran = absurd cc
  lease_less st i l phase (begins _ _) r at_i p f ran = absurd cc
  lease_less st i l phase (steps _ _ _) r at_i p f ran = absurd cc
  lease_less st i l phase (touches _ _) r at_i p f ran = absurd cc
  lease_less st i l phase (pings _) r at_i p f ran = absurd cc
  lease_less st i l waiting (enters _) r at_i p f ran = elim (Bool-cases (is_locked st l.ref)) [
    | inl q ↦ absurd (let none_left = rw q at ran in cc)
    | inr q ↦ result_less st (rw q at ran) (enter_less core_step st i l at_i p)
  ]
  lease_less st i l inside (enters _) r at_i p f ran = absurd cc
  lease_less st i l closing (enters _) r at_i p f ran = absurd cc
  lease_less st i l leaving (enters _) r at_i p f ran = absurd cc
  lease_less st i l waiting (closes _) r at_i p f ran = absurd cc
  lease_less st i l inside (closes _) r at_i p f ran =
      result_less st ran (phase_less st i l inside closing at_i p (omega arith))
  lease_less st i l closing (closes _) r at_i p f ran = absurd cc
  lease_less st i l leaving (closes _) r at_i p f ran = absurd cc
  lease_less st i l waiting (leaves _) r at_i p f ran = absurd cc
  lease_less st i l inside (leaves _) r at_i p f ran =
      result_less st ran (phase_less st i l inside leaving at_i p (omega arith))
  lease_less st i l closing (leaves _) r at_i p f ran =
      result_less st ran (phase_less st i l closing leaving at_i p (omega arith))
  lease_less st i l leaving (leaves _) r at_i p f ran = absurd cc
  lease_less st i l waiting (ends _ _) r at_i p f ran = absurd cc
  lease_less st i l inside (ends _ _) r at_i p f ran = absurd cc
  lease_less st i l closing (ends _ _) r at_i p f ran = absurd cc
  lease_less st i l leaving (ends _ _) r at_i p f ran =
      let only : waits l ≡ 1 = ap steps_left p in
      let w = work-remove_at st.leases i l at_i in result_less st ran (omega arith)

  on_lease_less :
      (st : Store S) (i : ℕ) (e : Event S A) (r : Store S × Answer)
      → finishes e ≡ true
      → on_lease core_step st i e ≡ some r
      → work r.0.leases < work st.leases
  on_lease_less st i e r f ran = elim (Option-cases (get_elem? st.leases i)) [
    | inl q ↦ absurd (let bad = rw (q, on_lease) at ran in cc)
    | inr (l, q) ↦ lease_less st i l l.phase e r q refl f (rw (q, on_lease) at ran)
  ]

  event_less :
      (st : Store S) (e : Event S A) (r : Store S × Answer)
      → finishes e ≡ true
      → event core_step st e ≡ some r
      → work r.0.leases < work st.leases
  unfolding event
  event_less st (creates _ _ _ _) r f ran = absurd cc
  event_less st (begins _ _) r f ran = absurd cc
  event_less st (pings _) r f ran = absurd cc
  event_less st (steps _ _ _) r f ran = absurd cc
  event_less st (touches _ _) r f ran = absurd cc
  event_less st (enters i) r f ran = on_lease_less st i (enters i) r f ran
  event_less st (closes i) r f ran = on_lease_less st i (closes i) r f ran
  event_less st (leaves i) r f ran = on_lease_less st i (leaves i) r f ran
  event_less st (ends i now) r f ran = on_lease_less st i (ends i now) r f ran

  run_less :
      (st st' : Store S) (es : List (Event S A))
      → all finishes es ≡ true
      → run core_step st es ≡ some st'
      → length es + work st'.leases ≤ work st.leases
  unfolding run
  run_less st st' [] f h =
      let same = ap (λ z. work z.leases) (some-injective st st' h) in omega arith
  run_less st st' (e ∷ es) f h = elim (Option-cases (event core_step st e)) [
    | inl q ↦ absurd (let bad = rw (q, run) at h in cc)
    | inr (r, q) ↦
        let (now, later) = &&_split (finishes e) _ f in
        let less = event_less st e r now q in
        let rest = run_less r.0 st' es later (rw (q, run) at h) in omega arith
  ]

  -- No call holds a lease, and no session has a user.
  abbrev pub IsQuiet : Store S → Type 0
  IsQuiet st = (st.leases ≡ []) × ((r : ℕ) → (st.heap r).users ≡ 0)

  quiet : (st : Store S) → IsSound st → IsQuiet st ⊎ Progress core_step st
  quiet st sound = elim (List-cases st.leases) [
    | inr (l, ls, e) ↦ inr (progress core_step st l ls e)
    | inl e ↦ inl (e, λ r. sound.counted r ∙ ap (λ ls. count_if (of_ref r) ls) e)
  ]

  -- After any interleaving of calls on a new store, the calls that have begun end whatever the
  -- order in which they are brought on (they enter the lock of their session, close it, leave the
  -- lock or end their lease): there are at most four such events for each call, counted from where
  -- it stands, and wherever they have come to, either one more of them can happen, or no call is
  -- left and no session has a user. No call is inside a session that has been closed.
  pub calls-finish :
      (max ttl : Option ℕ) (s : S) (before es : List (Event S A)) (st st' : Store S)
      → run core_step (new_store max ttl s) before ≡ some st
      → all finishes es ≡ true
      → run core_step st es ≡ some st'
      → (length es + work st'.leases ≤ work st.leases)
        × All (λ l. l.phase ≡ inside → (st'.heap l.ref).closed ≡ false) st'.leases
        × (IsQuiet st'
            ⊎ ((e : Event S A) × (r : Store S × Answer) × (event core_step st' e ≡ some r)
                × (finishes e ≡ true)))
  calls-finish max ttl s before es st st' h f ran =
      let sound =
        run-IsSound core_step st st' es ran (calls-IsSound core_step max ttl s before st h) in
      (
        run_less st st' es f ran,
        sound.working,
        elim (quiet st' sound) [ inl q ↦ inl q | inr (e, r, can, ok, _) ↦ inr (e, r, can, ok) ],
      )
