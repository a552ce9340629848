-- ===== src/Sessions/Admission.antt =====
-- `create` of src/eslams/runner_session.py keeps a session store sound.
use e_slams.Prelude.{
  All-append, All-map, All-zip, List, Option, String, [], arith, count_if-zero, false, if_rule,
  is_some, length, length-append, none, refl, some, sym, true, ℕ, ◌++◌, ◌==◌, ◌∙◌, ◌∷◌, ◌≡◌,
}
use e_slams.Sessions.{
  Answer, Session, Store, admit, create, find, is_full, is_session_id, reap, write,
}
use e_slams.Sessions.Reaping.{write_ne}
use e_slams.Sessions.Table.{Distinct-append}
use e_slams.Sessions.Sound.{IsSound, IsWithin, of_ref, reap-IsSound}
use e_slams.Sessions.Calls.{users_write}

admitted-IsWithin :
    (max : Option ℕ) (t : List (String × ℕ)) (e : String × ℕ)
    → is_full max (length t) ≡ false
    → IsWithin max (length (t ++ e ∷ []))
admitted-IsWithin none t e h = tt
admitted-IsWithin (some n) t e h = let more = length-append t (e ∷ []) in ground arith

pub write_self {ℓ} :
    {S : Type 0} {B : Type ℓ} (f : Session S → B) (heap : ℕ → Session S) (ref : ℕ) (s : Session S)
    → f (write heap ref s ref) ≡ f s
write_self f heap ref s = let here : (ref == ref) ≡ true = ground arith in rw here refl

module _ {S : Type 0} where
  pub admit-IsSound :
      (st : Store S) (id : String) (state : S) (now wall : ℕ)
      → IsSound st
      → IsSound (admit st id state now wall).0
  unfolding admit
  admit-IsSound st id state now wall sound =
      if_rule {A = Store S × Answer} (λ r. IsSound r.0) (is_some (find id st.table)) (λ _. sound)
        λ new.
          if_rule {A = Store S × Answer} (λ r. IsSound r.0)
            (is_full st.max_sessions (length st.table)) (λ _. sound)
            λ room.
              let s : Session S = record {
                session_id = id;
                state = state;
                last_used_at_ms = wall;
                activity = now;
                users = 0;
                closed = false;
              } in
              let table_apart =
                All-map _ (λ e. (e.1 == st.next_ref) ≡ false) st.table (λ e lt. ground arith)
                  sound.allocated in
              let lease_apart =
                All-map _ (λ l. (l.ref == st.next_ref) ≡ false) st.leases (λ l lt. ground arith)
                  sound.lease_allocated in
              record {
                distinct = Distinct-append st.table id st.next_ref sound.distinct new;
                open_table =
                    All-append _ st.table ((id, st.next_ref) ∷ [])
                      (All-zip _ _ _ st.table
                        (λ e apart o. write_ne (λ x. x.closed) st.heap st.next_ref s e.1 apart ∙ o)
                        table_apart sound.open_table)
                      (write_self (λ x. x.closed) st.heap st.next_ref s, tt);
                named =
                    All-append _ st.table ((id, st.next_ref) ∷ [])
                      (All-zip _ _ _ st.table
                        (λ e apart o.
                          write_ne (λ x. x.session_id) st.heap st.next_ref s e.1 apart ∙ o)
                        table_apart sound.named)
                      (write_self (λ x. x.session_id) st.heap st.next_ref s, tt);
                allocated =
                    All-append _ st.table ((id, st.next_ref) ∷ [])
                      (All-map _ _ st.table (λ e lt. omega arith) sound.allocated)
                      (omega arith, tt);
                within = admitted-IsWithin st.max_sessions st.table (id, st.next_ref) room;
                lease_named =
                    All-zip _ _ _ st.leases
                      (λ l apart o.
                        write_ne (λ x. x.session_id) st.heap st.next_ref s l.ref apart ∙ o)
                      lease_apart sound.lease_named;
                lease_allocated = All-map _ _ st.leases (λ l lt. omega arith) sound.lease_allocated;
                counted = λ r.
                    users_write st.heap st.next_ref s r _
                      (λ e. rw e (sym (count_if-zero (of_ref st.next_ref) st.leases lease_apart)))
                      (λ _. sound.counted r);
                exclusive = sound.exclusive;
                working =
                    All-zip _ _ _ st.leases
                      (λ l apart w i.
                        write_ne (λ x. x.closed) st.heap st.next_ref s l.ref apart ∙ w i)
                      lease_apart sound.working;
              }

  pub create-IsSound :
      (st : Store S) (id : String) (state : S) (now wall : ℕ)
      → IsSound st
      → IsSound (create st id state now wall).0
  unfolding create
  create-IsSound st id state now wall sound =
      if_rule {A = Store S × Answer} (λ r. IsSound r.0) (is_session_id id)
        (λ _. admit-IsSound (reap now st) id state now wall (reap-IsSound now st sound))
        (λ _. sound)
