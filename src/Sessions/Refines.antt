-- ===== src/Sessions/Refines.antt =====
-- Every event of a session store that keeps its sessions is an operation of the map.
use e_slams.Prelude.{
  All-get_elem?, Bool-cases, List, Option, Option-cases, String, ap, arith, false, get_elem?,
  if_rule, if◌then◌else◌, inl, inr, is_some, length, none, refl, some, str_eq, true, ℕ, ◌>>=◌, ◌≡◌,
}
use e_slams.Sessions.{
  Answer, Lease, Phase, Session, Store, admit, begin, closing, create, find, finds, inside, is_full,
  is_locked, is_session_id, leaving, new_store, take_lease, waiting, write,
}
use e_slams.Sessions.Reaping.{write_ne}
use e_slams.Sessions.Table.{find-All}
use e_slams.Sessions.Sound.{IsSound}
use e_slams.Sessions.Admission.{write_self}
use e_slams.Sessions.Refinement.{
  apply, close-view, end_lease-view, enter-view, find-none, find_new, into, is_done, keep, lease_op,
  op_of, put, same_state-view, step-view, view,
}
use e_slams.Sessions.Listing.{IsKept, calls-IsKept, inside-finds, reap-none}
use e_slams.Sessions.Run.{calls-IsSound}
use e_slams.Sessions.Events.{
  Event, begins, closes, creates, ends, enters, event, lease_event, leaves, on_lease, pings, run,
  steps, touches,
}

module _ {S A : Type 0} (core_step : S → A → Option S) where
  lease_event-Refines :
      (st : Store S) (i : ℕ) (l : Lease) (phase : Phase) (e : Event S A) (st' : Store S)
      (answer : Answer)
      → IsSound st
      → get_elem? st.leases i ≡ some l
      → (phase ≡ inside → finds l.id l.ref st.table ≡ true)
      → lease_event core_step st i l phase e ≡ some (st', answer)
      → (x : String) → view st' x ≡ apply (lease_op core_step e l) (view st) x
  unfolding lease_event
  lease_event-Refines st i l waiting (creates _ _ _ _) st' answer sound at_i own ran x = absurd cc
  lease_event-Refines st i l waiting (begins _ _) st' answer sound at_i own ran x = absurd cc
  lease_event-Refines st i l waiting (enters _) st' answer sound at_i own ran x =
      elim (Bool-cases (is_locked st l.ref)) [
        | inl q ↦ absurd (let none_left = rw q at ran in cc)
        | inr q ↦ into (λ r. view r.0 x ≡ view st x) (rw q at ran) (enter-view st i l x)
      ]
  lease_event-Refines st i l waiting (steps _ action wall) st' answer sound at_i own ran x =
      absurd cc
  lease_event-Refines st i l waiting (touches _ wall) st' answer sound at_i own ran x = absurd cc
  lease_event-Refines st i l waiting (closes _) st' answer sound at_i own ran x = absurd cc
  lease_event-Refines st i l waiting (leaves _) st' answer sound at_i own ran x = absurd cc
  lease_event-Refines st i l waiting (ends _ now) st' answer sound at_i own ran x = absurd cc
  lease_event-Refines st i l waiting (pings _) st' answer sound at_i own ran x = absurd cc
  lease_event-Refines st i l inside (creates _ _ _ _) st' answer sound at_i own ran x = absurd cc
  lease_event-Refines st i l inside (begins _ _) st' answer sound at_i own ran x = absurd cc
  lease_event-Refines st i l inside (enters _) st' answer sound at_i own ran x = absurd cc
  lease_event-Refines st i l inside (steps _ action wall) st' answer sound at_i own ran x =
      into (λ r. view r.0 x ≡ apply (lease_op core_step (steps i action wall) l) (view st) x) ran
        (step-view core_step st l action wall x i sound
          (All-get_elem? _ st.leases i l at_i sound.lease_named) (own refl))
  lease_event-Refines st i l inside (touches _ wall) st' answer sound at_i own ran x =
      into (λ r. view r.0 x ≡ view st x) ran (same_state-view st l.ref _ x refl)
  lease_event-Refines st i l inside (closes _) st' answer sound at_i own ran x =
      into (λ r. view r.0 x ≡ apply (lease_op core_step (closes i) l) (view st) x) ran
        (close-view core_step st i l x sound (own refl))
  lease_event-Refines st i l inside (leaves _) st' answer sound at_i own ran x =
      into (λ r. view r.0 x ≡ view st x) ran refl
  lease_event-Refines st i l inside (ends _ now) st' answer sound at_i own ran x = absurd cc
  lease_event-Refines st i l inside (pings _) st' answer sound at_i own ran x = absurd cc
  lease_event-Refines st i l closing (creates _ _ _ _) st' answer sound at_i own ran x = absurd cc
  lease_event-Refines st i l closing (begins _ _) st' answer sound at_i own ran x = absurd cc
  lease_event-Refines st i l closing (enters _) st' answer sound at_i own ran x = absurd cc
  lease_event-Refines st i l closing (steps _ action wall) st' answer sound at_i own ran x =
      absurd cc
  lease_event-Refines st i l closing (touches _ wall) st' answer sound at_i own ran x = absurd cc
  lease_event-Refines st i l closing (closes _) st' answer sound at_i own ran x = absurd cc
  lease_event-Refines st i l closing (leaves _) st' answer sound at_i own ran x =
      into (λ r. view r.0 x ≡ view st x) ran refl
  lease_event-Refines st i l closing (ends _ now) st' answer sound at_i own ran x = absurd cc
  lease_event-Refines st i l closing (pings _) st' answer sound at_i own ran x = absurd cc
  lease_event-Refines st i l leaving (creates _ _ _ _) st' answer sound at_i own ran x = absurd cc
  lease_event-Refines st i l leaving (begins _ _) st' answer sound at_i own ran x = absurd cc
  lease_event-Refines st i l leaving (enters _) st' answer sound at_i own ran x = absurd cc
  lease_event-Refines st i l leaving (steps _ action wall) st' answer sound at_i own ran x =
      absurd cc
  lease_event-Refines st i l leaving (touches _ wall) st' answer sound at_i own ran x = absurd cc
  lease_event-Refines st i l leaving (closes _) st' answer sound at_i own ran x = absurd cc
  lease_event-Refines st i l leaving (leaves _) st' answer sound at_i own ran x = absurd cc
  lease_event-Refines st i l leaving (ends _ now) st' answer sound at_i own ran x =
      into (λ r. view r.0 x ≡ view st x) ran (end_lease-view st i l now x)
  lease_event-Refines st i l leaving (pings _) st' answer sound at_i own ran x = absurd cc

  on_lease-Refines :
      (st : Store S) (i : ℕ) (e : Event S A) (st' : Store S) (answer : Answer) (x : String)
      → IsSound st
      → IsKept st
      → on_lease core_step st i e ≡ some (st', answer)
      → (l : Lease) × (get_elem? st.leases i ≡ some l)
        × (view st' x ≡ apply (lease_op core_step e l) (view st) x)
  on_lease-Refines st i e st' answer x sound kept ran =
      elim (Option-cases (get_elem? st.leases i)) [
        | inl q ↦ absurd (let bad = rw (q, on_lease) at ran in cc)
        | inr (l, q) ↦ (
          l,
          q,
          lease_event-Refines st i l l.phase e st' answer sound q
              (inside-finds core_step st i l sound kept q) (rw (q, on_lease) at ran) x,
        )
      ]

  admit-view :
      (st : Store S) (id : String) (state : S) (now wall : ℕ) (x : String)
      → IsSound st
      → view (admit st id state now wall).0 x
        ≡ apply (if is_done (admit st id state now wall).1 then put id state else keep) (view st) x
  unfolding admit
  admit-view st id state now wall x sound =
      let P : Store S × Answer → Type 0 =
        λ r. view r.0 x ≡ apply (if is_done r.1 then put id state else keep) (view st) x in
      if_rule {A = Store S × Answer} P (is_some (find id st.table)) (λ _. refl)
        (λ new.
          if_rule {A = Store S × Answer} P (is_full st.max_sessions (length st.table)) (λ _. refl)
            (λ _.
              let fresh = find_new x id st.next_ref st.table (find-none id st.table new) in
              elim (Bool-cases (str_eq id x)) [
                | inl here ↦
                    rw (fresh, here)
                      (ap some (
                        write_self (λ y. y.state) st.heap st.next_ref
                          (record {
                            session_id = id;
                            state = state;
                            last_used_at_ms = wall;
                            activity = now;
                            users = 0;
                            closed = false;
                          })))
                | inr apart_from ↦ rw (fresh, apart_from) (old _ apart_from)
              ]))
    where
      old :
          (s : Session S)
          → str_eq id x ≡ false
          → (find x st.table >>= λ r. some (write st.heap st.next_ref s r).state) ≡ view st x
      old s apart_from = elim (Option-cases (find x st.table)) [
        | inl q ↦ rw q refl
        | inr (r, q) ↦
            let lt = find-All _ st.table x r q sound.allocated in
            rw q (ap some (write_ne (λ y. y.state) st.heap st.next_ref s r (ground arith)))
      ]

  create-view :
      (st : Store S) (id : String) (state : S) (now wall : ℕ) (x : String)
      → IsSound st
      → st.idle_ttl_seconds ≡ none
      → view (create st id state now wall).0 x
        ≡ apply (if is_done (create st id state now wall).1 then put id state else keep) (view st) x
  unfolding create
  create-view st id state now wall x sound kept =
      let same = reap-none st now kept in
      if_rule {A = Store S × Answer}
        (λ r. view r.0 x ≡ apply (if is_done r.1 then put id state else keep) (view st) x)
        (is_session_id id) (λ _. rw same (admit-view st id state now wall x sound)) (λ _. refl)

  begin-view :
      (st : Store S) (id : String) (now : ℕ) (x : String)
      → st.idle_ttl_seconds ≡ none
      → view (begin st id now).0 x ≡ view st x
  unfolding begin take_lease
  begin-view st id now x kept =
      let same = reap-none st now kept in
      elim (Option-cases (find id st.table)) [
        | inl q ↦ rw (same, q) refl
        | inr (r, q) ↦ rw (same, q) (same_state-view st r _ x refl)
      ]

  kept-Refines :
      (st st' : Store S) (e : Event S A) (answer : Answer)
      → IsSound st
      → IsKept st
      → event core_step st e ≡ some (st', answer)
      → (x : String) → view st' x ≡ apply (op_of core_step st.leases e answer) (view st) x
  unfolding event
  kept-Refines st st' (creates id state now wall) answer sound kept ran x =
      into (λ r. view r.0 x ≡ apply (if is_done r.1 then put id state else keep) (view st) x) ran
        (create-view st id state now wall x sound kept.no_ttl)
  kept-Refines st st' (begins id now) answer sound kept ran x =
      into (λ r. view r.0 x ≡ view st x) ran (begin-view st id now x kept.no_ttl)
  kept-Refines st st' (pings now) answer sound kept ran x =
      into (λ r. view r.0 x ≡ view st x) ran (ap (λ z. view z x) (reap-none st now kept.no_ttl))
  kept-Refines st st' (enters i) answer sound kept ran x =
      (on_lease-Refines st i (enters i) st' answer x sound kept ran).2
  kept-Refines st st' (touches i wall) answer sound kept ran x =
      (on_lease-Refines st i (touches i wall) st' answer x sound kept ran).2
  kept-Refines st st' (leaves i) answer sound kept ran x =
      (on_lease-Refines st i (leaves i) st' answer x sound kept ran).2
  kept-Refines st st' (ends i now) answer sound kept ran x =
      (on_lease-Refines st i (ends i now) st' answer x sound kept ran).2
  kept-Refines st st' (steps i action wall) answer sound kept ran x =
      let (l, at_i, done_to) =
        on_lease-Refines st i (steps i action wall) st' answer x sound kept ran in
      rw (at_i, op_of) done_to
  kept-Refines st st' (closes i) answer sound kept ran x =
      let (l, at_i, done_to) = on_lease-Refines st i (closes i) st' answer x sound kept ran in
      rw (at_i, op_of) done_to

  -- After any interleaving of calls on a new store that has no time to live for its sessions, every
  -- further event does to the map from ids to states what the map's operation does: a session that
  -- is created is put in, a step updates the state of the id of its call, closing removes the id of
  -- its call, and nothing else changes the map.
  pub event-Refines :
      (max : Option ℕ) (s : S) (es : List (Event S A)) (st st' : Store S) (e : Event S A)
      (answer : Answer)
      → run core_step (new_store max none s) es ≡ some st
      → event core_step st e ≡ some (st', answer)
      → (x : String) → view st' x ≡ apply (op_of core_step st.leases e answer) (view st) x
  event-Refines max s es st st' e answer before ran x =
      kept-Refines st st' e answer (calls-IsSound core_step max none s es st before)
        (calls-IsKept core_step max s es st before) ran x
