-- ===== src/Sessions/Listing.antt =====
-- In a store that reaps no sessions, every session that is open is the one that its id stands for:
-- the store drops a session only when it closes it.
use e_slams.Prelude.{
  ==_iff, All-get_elem?, Bool-cases, List, Option, Option-cases, String, [], ap, arith, eq_iff,
  false, get_elem?, if_rule, if◌then◌else◌, inl, inr, is_some, length, none, refl, some,
  some-injective, str_eq, subst, sym, true, ℕ, ◌++◌, ◌+◌, ◌<◌, ◌==◌, ◌∙◌, ◌∷◌, ◌≡◌,
}
use e_slams.Sessions.{
  Answer, Lease, Phase, Session, Store, admit, advance, begin, close_session, closed_session,
  create, delete, end_lease, enter, find, finds, inside, is_full, is_session_id, leaving, new_store,
  reap, reap_with, set_phase, take_lease, write,
}
use e_slams.Sessions.Reaping.{write-keeps, write_ne}
use e_slams.Sessions.Sound.{IsSound}
use e_slams.Sessions.Refinement.{find-none, find_ne, find_new, finds-some, into, some-finds}
use e_slams.Sessions.Events.{
  Event, begins, closes, creates, ends, enters, event, lease_rule, leaves, on_lease, pings, run,
  steps, touches,
}
use e_slams.Arena.{other}

pub reap-none :
    {S : Type 0} (st : Store S) (now : ℕ) → st.idle_ttl_seconds ≡ none → reap now st ≡ st
unfolding reap
reap-none st now h = ap (λ ttl. reap_with ttl now st) h

module _ {S : Type 0} where
  -- No session is reaped, and the open ones are found under their ids.
  pub record IsKept (st : Store S) : Type 0 where
    pub no_ttl : st.idle_ttl_seconds ≡ none
    pub listed :
        (r : ℕ)
        → r < st.next_ref
        → (st.heap r).closed ≡ false
        → find (st.heap r).session_id st.table ≡ some r

  -- An object changes, but for its id and whether it is closed.
  touched-IsKept :
      (st : Store S) (ref : ℕ) (s : Session S) (ls : List Lease)
      → s.session_id ≡ (st.heap ref).session_id
      → s.closed ≡ (st.heap ref).closed
      → IsKept st
      → IsKept (record st { heap = write st.heap ref s; leases = ls })
  touched-IsKept st ref s ls same_id same_closed k = record {
    no_ttl = k.no_ttl;
    listed = λ r lt opened.
        let id = write-keeps (λ y. y.session_id) st.heap ref s r same_id in
        let closed = write-keeps (λ y. y.closed) st.heap ref s r same_closed in
        ap (λ z. find z st.table) id ∙ k.listed r lt (sym closed ∙ opened);
  }

  set_phase-IsKept :
      (st : Store S) (i : ℕ) (l : Lease) (phase : Phase)
      → IsKept st
      → IsKept (set_phase st i l phase)
  set_phase-IsKept st i l phase k = record { no_ttl = k.no_ttl; listed = k.listed }

  advance-IsKept :
      (st : Store S) (l : Lease) (next : Option S) (wall : ℕ)
      → IsKept st
      → IsKept (advance st l next wall)
  advance-IsKept st l none wall k = touched-IsKept st l.ref _ st.leases refl refl k
  advance-IsKept st l (some s) wall k = touched-IsKept st l.ref _ st.leases refl refl k

  end_lease-IsKept :
      (st : Store S) (i : ℕ) (l : Lease) (now : ℕ) → IsKept st → IsKept (end_lease st i l now)
  unfolding end_lease
  end_lease-IsKept st i l now k = touched-IsKept st l.ref _ _ refl refl k

  enter-IsKept : (st : Store S) (i : ℕ) (l : Lease) → IsKept st → IsKept (enter st i l).0
  unfolding enter
  enter-IsKept st i l k =
      if_rule {A = Store S × Answer} (λ r. IsKept r.0) (st.heap l.ref).closed
        (λ _. set_phase-IsKept st i l leaving k) (λ _. set_phase-IsKept st i l inside k)

  -- The entries of other objects outlive the closing of one.
  dropped-find :
      (st : Store S) (l : Lease) (x : String) (r : ℕ)
      → find x st.table ≡ some r
      → (r == l.ref) ≡ false
      → find x (if finds l.id l.ref st.table then delete l.id st.table else st.table) ≡ some r
  dropped-find st l x r found other = elim (Bool-cases (finds l.id l.ref st.table)) [
    | inr q ↦ rw q found
    | inl q ↦ elim (Bool-cases (str_eq l.id x)) [
      | inr apart ↦ rw q (find_ne x l.id st.table apart ∙ found)
      | inl here ↦
          let id = (eq_iff l.id x).0 here in
          let own = finds-some l.id l.ref st.table q in
          let same : some r ≡ some l.ref = sym found ∙ ap (λ z. find z st.table) (sym id) ∙ own in
          let eq = (==_iff r l.ref).1 (some-injective r l.ref same) in absurd cc
    ]
  ]

  close_session-IsKept :
      (st : Store S) (i : ℕ) (l : Lease) → IsKept st → IsKept (close_session st i l)
  unfolding close_session
  close_session-IsKept st i l k = record {
    no_ttl = k.no_ttl;
    listed = λ r lt opened. elim (Bool-cases (r == l.ref)) [
      | inl q ↦ absurd (let bad = rw q at opened in cc)
      | inr q ↦
          let id =
            write_ne (λ y. y.session_id) st.heap l.ref (closed_session (st.heap l.ref)) r q in
          let closed =
            write_ne (λ y. y.closed) st.heap l.ref (closed_session (st.heap l.ref)) r q in
          rw id (dropped-find st l (st.heap r).session_id r (k.listed r lt (sym closed ∙ opened)) q)
    ];
  }

  reap-IsKept : (st : Store S) (now : ℕ) → IsKept st → IsKept (reap now st)
  reap-IsKept st now k = subst IsKept (sym (reap-none st now k.no_ttl)) k

  take_lease-IsKept :
      (st : Store S) (id : String) (o : Option ℕ) → IsKept st → IsKept (take_lease st id o).0
  unfolding take_lease
  take_lease-IsKept st id none k = k
  take_lease-IsKept st id (some r) k = touched-IsKept st r _ _ refl refl k

  begin-IsKept : (st : Store S) (id : String) (now : ℕ) → IsKept st → IsKept (begin st id now).0
  unfolding begin
  begin-IsKept st id now k = take_lease-IsKept (reap now st) id _ (reap-IsKept st now k)

  new-IsKept :
      (st : Store S) (id : String) (s : Session S)
      → s.session_id ≡ id
      → find id st.table ≡ none
      → IsKept st
      → IsKept (record st {
        heap = write st.heap st.next_ref s;
        next_ref = st.next_ref + 1;
        table = st.table ++ (id, st.next_ref) ∷ [];
      })
  new-IsKept st id s named new k = record {
    no_ttl = k.no_ttl;
    listed = λ r lt opened. elim (Bool-cases (r == st.next_ref)) [
      | inl q ↦
          let own : (str_eq id id) ≡ true = (eq_iff id id).1 refl in
          let fresh = find_new id id st.next_ref st.table new in
          let here = (==_iff r st.next_ref).0 q in rw (q, named, fresh, own) (ap some (sym here))
      | inr q ↦
          let same_id = write_ne (λ y. y.session_id) st.heap st.next_ref s r q in
          let closed = write_ne (λ y. y.closed) st.heap st.next_ref s r q in
          let found = k.listed r (ground arith) (sym closed ∙ opened) in
          let fresh = find_new (st.heap r).session_id id st.next_ref st.table new in
          rw (same_id, fresh)
            (elim (Bool-cases (str_eq id (st.heap r).session_id)) [
              | inr apart ↦ rw apart found
              | inl z ↦
                  let id' = (eq_iff id (st.heap r).session_id).0 z in
                  absurd (let bad = sym found ∙ ap (λ y. find y st.table) (sym id') ∙ new in cc)
            ])
    ];
  }

  admit-IsKept :
      (st : Store S) (id : String) (state : S) (now wall : ℕ)
      → IsKept st
      → IsKept (admit st id state now wall).0
  unfolding admit
  admit-IsKept st id state now wall k =
      if_rule {A = Store S × Answer} (λ r. IsKept r.0) (is_some (find id st.table)) (λ _. k)
        (λ new.
          if_rule {A = Store S × Answer} (λ r. IsKept r.0)
            (is_full st.max_sessions (length st.table)) (λ _. k)
            (λ _. new-IsKept st id _ refl (find-none id st.table new) k))

  create-IsKept :
      (st : Store S) (id : String) (state : S) (now wall : ℕ)
      → IsKept st
      → IsKept (create st id state now wall).0
  unfolding create
  create-IsKept st id state now wall k =
      if_rule {A = Store S × Answer} (λ r. IsKept r.0) (is_session_id id)
        (λ _. admit-IsKept (reap now st) id state now wall (reap-IsKept st now k)) (λ _. k)

module _ {S A : Type 0} (core_step : S → A → Option S) where
  on_lease-IsKept :
      (st : Store S) (i : ℕ) (e : Event S A) (r : Store S × Answer)
      → on_lease core_step st i e ≡ some r
      → IsKept st
      → IsKept r.0
  on_lease-IsKept st i e r ran k = elim (Option-cases (get_elem? st.leases i)) [
    | inl q ↦ absurd (let bad = rw (q, on_lease) at ran in cc)
    | inr (l, q) ↦
        lease_rule core_step (λ x. IsKept x.0) st i l l.phase e r (λ _. enter-IsKept st i l k)
          (λ next wall. advance-IsKept st l next wall k) (λ _ _. close_session-IsKept st i l k)
          (set_phase-IsKept st i l leaving k) (λ now. end_lease-IsKept st i l now k)
          (rw (q, on_lease) at ran)
  ]

  event-IsKept :
      (st : Store S) (e : Event S A) (r : Store S × Answer)
      → event core_step st e ≡ some r
      → IsKept st
      → IsKept r.0
  unfolding event
  event-IsKept st (creates id state now wall) r ran k =
      into (λ x. IsKept x.0) ran (create-IsKept st id state now wall k)
  event-IsKept st (begins id now) r ran k = into (λ x. IsKept x.0) ran (begin-IsKept st id now k)
  event-IsKept st (pings now) r ran k = into (λ x. IsKept x.0) ran (reap-IsKept st now k)
  event-IsKept st (enters i) r ran k = on_lease-IsKept st i (enters i) r ran k
  event-IsKept st (steps i action wall) r ran k = on_lease-IsKept st i (steps i action wall) r ran k
  event-IsKept st (touches i wall) r ran k = on_lease-IsKept st i (touches i wall) r ran k
  event-IsKept st (leaves i) r ran k = on_lease-IsKept st i (leaves i) r ran k
  event-IsKept st (closes i) r ran k = on_lease-IsKept st i (closes i) r ran k
  event-IsKept st (ends i now) r ran k = on_lease-IsKept st i (ends i now) r ran k

  run-IsKept :
      (st st' : Store S) (es : List (Event S A))
      → run core_step st es ≡ some st'
      → IsKept st
      → IsKept st'
  unfolding run
  run-IsKept st st' [] h k = subst IsKept (some-injective st st' h) k
  run-IsKept st st' (e ∷ es) h k = elim (Option-cases (event core_step st e)) [
    | inl q ↦ absurd (let bad = rw (q, run) at h in cc)
    | inr (r, q) ↦ run-IsKept r.0 st' es (rw (q, run) at h) (event-IsKept st e r q k)
  ]

  -- Calls of a new store without a time to live leave every open session in the table.
  pub calls-IsKept :
      (max : Option ℕ) (s : S) (es : List (Event S A)) (st : Store S)
      → run core_step (new_store max none s) es ≡ some st
      → IsKept st
  unfolding new_store
  calls-IsKept max s es st h =
      run-IsKept (new_store max none s) st es h
        (record { no_ttl = refl; listed = λ r lt opened. absurd (omega arith) })

  -- The session of a call that is inside is the one of the call's id.
  pub inside-finds :
      (st : Store S) (i : ℕ) (l : Lease)
      → IsSound st
      → IsKept st
      → get_elem? st.leases i ≡ some l
      → l.phase ≡ inside
      → finds l.id l.ref st.table ≡ true
  inside-finds st i l sound k at_i in_phase =
      let opened = All-get_elem? _ st.leases i l at_i sound.working in_phase in
      let named = All-get_elem? _ st.leases i l at_i sound.lease_named in
      let allocated = All-get_elem? _ st.leases i l at_i sound.lease_allocated in
      some-finds l.id l.ref st.table
        (ap (λ z. find z st.table) (sym named) ∙ k.listed l.ref allocated opened)
