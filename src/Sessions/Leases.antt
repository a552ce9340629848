-- ===== src/Sessions/Leases.antt =====
-- What a lease keeps, and that every call can end.
use e_slams.Prelude.{
  All-get_elem?, Bool, Option, Option-cases, String, arith, false, get_elem?, if_rule, inl, inr,
  is_some, length, none, refl, some, some-injective, subst, true, ℕ, ◌<◌, ◌==◌, ◌∙◌, ◌≡◌, ◌≢◌,
}
use e_slams.Sessions.{
  Answer, Lease, Store, admit, advance, begin, close_session, create, end_lease, enter, find,
  is_full, is_session_id, reap, reap_with, take_lease,
}
use e_slams.Sessions.Reaping.{reap_entries-IsReaped, write-keeps, write_ne}
use e_slams.Sessions.Sound.{IsSound, counted-All}
use e_slams.Sessions.Events.{
  Event, begins, closes, creates, ends, enters, event, is_closes, lease_rule, leaves, on_lease,
  pings, steps, touches,
}
use e_slams.Arena.{other}

-- The event is the closing of the object.
abbrev pub closes_object : {S A : Type 0} → Store S → Event S A → ℕ → Bool
closes_object st (closes i) ref = elim (get_elem? st.leases i) as (λ _. Bool) [
  | none ↦ false
  | some l ↦ l.ref == ref
]
closes_object st _ ref = false

module _ {S : Type 0} where
  -- The object is open after the step.
  abbrev IsOpenAfter : ℕ → Store S × Answer → Type 0
  IsOpenAfter ref r = (r.0.heap ref).closed ≡ false

  reap_open :
      (st : Store S) (now ref : ℕ)
      → (st.heap ref).closed ≡ false
      → (st.heap ref).users ≢ 0
      → ((reap now st).heap ref).closed ≡ false
  unfolding reap
  reap_open st now ref opened used = go st.idle_ttl_seconds
    where
      go : (ttl : Option ℕ) → ((reap_with ttl now st).heap ref).closed ≡ false
      go none = opened
      go (some ttl) = (reap_entries-IsReaped st.table ttl now st.heap).still_open ref opened used

  next_ref-reap : (st : Store S) (now : ℕ) → (reap now st).next_ref ≡ st.next_ref
  unfolding reap
  next_ref-reap st now = go st.idle_ttl_seconds
    where
      go : (ttl : Option ℕ) → (reap_with ttl now st).next_ref ≡ st.next_ref
      go none = refl
      go (some ttl) = refl

  create_open :
      (st : Store S) (id : String) (state : S) (now wall ref : ℕ)
      → ref < st.next_ref
      → (st.heap ref).closed ≡ false
      → (st.heap ref).users ≢ 0
      → IsOpenAfter ref (create st id state now wall)
  unfolding create admit
  create_open st id state now wall ref old opened used =
      let kept = reap_open st now ref opened used in
      let next = next_ref-reap st now in
      if_rule {A = Store S × Answer} (IsOpenAfter ref) (is_session_id id)
        (λ _.
          if_rule {A = Store S × Answer} (IsOpenAfter ref) (is_some (find id (reap now st).table))
            (λ _. kept)
            (λ _.
              if_rule {A = Store S × Answer} (IsOpenAfter ref)
                (is_full (reap now st).max_sessions (length (reap now st).table)) (λ _. kept)
                (λ _.
                  write_ne (λ s. s.closed) (reap now st).heap (reap now st).next_ref _ ref
                    (rw next (ground arith))
                  ∙ kept)))
        (λ _. opened)

  begin_open :
      (st : Store S) (id : String) (now ref : ℕ)
      → (st.heap ref).closed ≡ false
      → (st.heap ref).users ≢ 0
      → IsOpenAfter ref (begin st id now)
  unfolding begin take_lease
  begin_open st id now ref opened used =
      let kept = reap_open st now ref opened used in
      elim (Option-cases (find id (reap now st).table)) [
        | inl e ↦ rw e kept
        | inr (r, e) ↦ rw e (write-keeps (λ s. s.closed) (reap now st).heap r _ ref refl ∙ kept)
      ]

  enter_open :
      (st : Store S) (i : ℕ) (l : Lease) (ref : ℕ)
      → (st.heap ref).closed ≡ false
      → IsOpenAfter ref (enter st i l)
  unfolding enter
  enter_open st i l ref opened =
      if_rule {A = Store S × Answer} (IsOpenAfter ref) (st.heap l.ref).closed (λ _. opened)
        (λ _. opened)

  advance_open :
      (st : Store S) (l : Lease) (next : Option S) (wall ref : ℕ)
      → (st.heap ref).closed ≡ false
      → ((advance st l next wall).heap ref).closed ≡ false
  advance_open st l none wall ref opened =
      write-keeps (λ s. s.closed) st.heap l.ref _ ref refl ∙ opened
  advance_open st l (some s) wall ref opened =
      write-keeps (λ s. s.closed) st.heap l.ref _ ref refl ∙ opened

  end_lease_open :
      (st : Store S) (i : ℕ) (l : Lease) (now ref : ℕ)
      → (st.heap ref).closed ≡ false
      → ((end_lease st i l now).heap ref).closed ≡ false
  unfolding end_lease
  end_lease_open st i l now ref opened =
      write-keeps (λ s. s.closed) st.heap l.ref _ ref refl ∙ opened

module _ {S A : Type 0} (core_step : S → A → Option S) where
  close_open :
      (st : Store S) (i : ℕ) (l : Lease) (e : Event S A) (ref : ℕ)
      → (l.ref == ref) ≡ false
      → (st.heap ref).closed ≡ false
      → ((close_session st i l).heap ref).closed ≡ false
  unfolding close_session
  close_open st i l e ref other opened =
      write_ne (λ s. s.closed) st.heap l.ref _ ref (ground arith) ∙ opened

  lease_open :
      (st : Store S) (i : ℕ) (e : Event S A) (r : Store S × Answer) (ref : ℕ)
      → (is_closes e ≡ true → (l : Lease) → get_elem? st.leases i ≡ some l → (l.ref == ref) ≡ false)
      → on_lease core_step st i e ≡ some r
      → (st.heap ref).closed ≡ false
      → IsOpenAfter ref r
  lease_open st i e r ref other ran opened = elim (Option-cases (get_elem? st.leases i)) [
    | inl q ↦ absurd (let bad = rw (q, on_lease) at ran in cc)
    | inr (l, q) ↦
        lease_rule core_step (IsOpenAfter ref) st i l l.phase e r
          (λ _. enter_open st i l ref opened) (λ next wall. advance_open st l next wall ref opened)
          (λ _ z. close_open st i l e ref (other z l q) opened) opened
          (λ now. end_lease_open st i l now ref opened) (rw (q, on_lease) at ran)
  ]

  event_open :
      (st : Store S) (e : Event S A) (r : Store S × Answer) (ref : ℕ)
      → ref < st.next_ref
      → (st.heap ref).users ≢ 0
      → closes_object st e ref ≡ false
      → event core_step st e ≡ some r
      → (st.heap ref).closed ≡ false
      → IsOpenAfter ref r
  unfolding event
  event_open st (creates id state now wall) r ref old used other ran opened =
      subst (IsOpenAfter ref) (some-injective _ _ ran)
        (create_open st id state now wall ref old opened used)
  event_open st (begins id now) r ref old used other ran opened =
      subst (IsOpenAfter ref) (some-injective _ _ ran) (begin_open st id now ref opened used)
  event_open st (pings now) r ref old used other ran opened =
      subst (IsOpenAfter ref) (some-injective _ _ ran) (reap_open st now ref opened used)
  event_open st (enters i) r ref old used other ran opened =
      lease_open st i (enters i) r ref (λ bad. absurd cc) ran opened
  event_open st (leaves i) r ref old used other ran opened =
      lease_open st i (leaves i) r ref (λ bad. absurd cc) ran opened
  event_open st (steps i action wall) r ref old used other ran opened =
      lease_open st i (steps i action wall) r ref (λ bad. absurd cc) ran opened
  event_open st (touches i wall) r ref old used other ran opened =
      lease_open st i (touches i wall) r ref (λ bad. absurd cc) ran opened
  event_open st (ends i now) r ref old used other ran opened =
      lease_open st i (ends i now) r ref (λ bad. absurd cc) ran opened
  event_open st (closes i) r ref old used other ran opened =
      lease_open st i (closes i) r ref (λ _ l q. rw (q, closes_object) at other) ran opened

  -- An open session that a call holds a lease of stays open until a call closes it: the reaping of
  -- idle sessions, which every other call does, leaves it alone.
  pub leased-open :
      (st st' : Store S) (e : Event S A) (answer : Answer) (i : ℕ) (l : Lease)
      → IsSound st
      → get_elem? st.leases i ≡ some l
      → (st.heap l.ref).closed ≡ false
      → closes_object st e l.ref ≡ false
      → event core_step st e ≡ some (st', answer)
      → (st'.heap l.ref).closed ≡ false
  leased-open st st' e answer i l sound at_i opened other ran =
      event_open st e (st', answer) l.ref (All-get_elem? _ st.leases i l at_i sound.lease_allocated)
        (λ z.
          let counted = sound.counted l.ref in
          let here =
            All-get_elem? _ st.leases i l at_i
              (counted-All st.leases st.leases (λ r. omega arith)) in
          omega arith)
        other ran opened
