-- ===== src/Sessions/Sound.antt =====
-- What holds of a session store between any two steps of its calls.
use e_slams.Prelude.{
  All, All-map, All-zip, Bool, List, Option, [], arith, count_if, false, length, none, some, ℕ, ◌<◌,
  ◌==◌, ◌∙◌, ◌∷◌, ◌≡◌, ◌≤◌,
}
use e_slams.Sessions.{Lease, Store, holds_lock, inside, reap, reap_with}
use e_slams.Sessions.Reaping.{
  Distinct, length-reap_entries, reap_entries-All, reap_entries-Distinct, reap_entries-IsReaped,
  reap_entries_open,
}

abbrev pub of_ref : ℕ → Lease → Bool
of_ref r l = l.ref == r

abbrev pub IsWithin : Option ℕ → ℕ → Type 0
IsWithin none n = Unit
IsWithin (some max) n = n ≤ max

pub IsWithin-le : (max : Option ℕ) (m n : ℕ) → m ≤ n → IsWithin max n → IsWithin max m
IsWithin-le none m n le w = tt
IsWithin-le (some k) m n le w = omega arith

-- Every lease is counted.
pub counted-All :
    (ls ms : List Lease)
    → ((r : ℕ) → count_if (of_ref r) ls ≤ count_if (of_ref r) ms)
    → All (λ l. 0 < count_if (of_ref l.ref) ms) ls
counted-All [] ms h = tt
counted-All (l ∷ ls) ms h =
    (let k = h l.ref in ground arith, counted-All ls ms (λ r. let k = h r in omega arith))

module _ {S : Type 0} where
  pub record IsSound (st : Store S) : Type 0 where
    pub distinct : Distinct st.table
    pub open_table : All (λ e. (st.heap e.1).closed ≡ false) st.table
    pub named : All (λ e. (st.heap e.1).session_id ≡ e.0) st.table
    pub allocated : All (λ e. e.1 < st.next_ref) st.table
    pub within : IsWithin st.max_sessions (length st.table)
    pub lease_named : All (λ l. (st.heap l.ref).session_id ≡ l.id) st.leases
    pub lease_allocated : All (λ l. l.ref < st.next_ref) st.leases
    pub counted : (r : ℕ) → (st.heap r).users ≡ count_if (of_ref r) st.leases
    pub exclusive : (r : ℕ) → count_if (holds_lock r) st.leases ≤ 1
    pub working : All (λ l. l.phase ≡ inside → (st.heap l.ref).closed ≡ false) st.leases

  pub reap-IsSound : (now : ℕ) (st : Store S) → IsSound st → IsSound (reap now st)
  unfolding reap
  reap-IsSound now st sound = go st.idle_ttl_seconds
    where
      go : (ttl : Option ℕ) → IsSound (reap_with ttl now st)
      go none = sound
      go (some ttl) =
          let r = reap_entries-IsReaped st.table ttl now st.heap in
          record {
            distinct = reap_entries-Distinct st.table ttl now st.heap sound.distinct;
            open_table =
                reap_entries_open st.table ttl now st.heap sound.open_table sound.distinct
                  sound.named;
            named =
                reap_entries-All _ st.table ttl now st.heap
                  (All-map _ _ st.table (λ e n. r.same_id e.1 ∙ n) sound.named);
            allocated = reap_entries-All _ st.table ttl now st.heap sound.allocated;
            within =
                IsWithin-le st.max_sessions _ _ (length-reap_entries st.table ttl now st.heap)
                  sound.within;
            lease_named = All-map _ _ st.leases (λ l n. r.same_id l.ref ∙ n) sound.lease_named;
            lease_allocated = sound.lease_allocated;
            counted = λ x. r.same_users x ∙ sound.counted x;
            exclusive = sound.exclusive;
            working =
                All-zip _ _ _ st.leases
                  (λ l used w inside_now.
                    r.still_open l.ref (w inside_now)
                      (λ z. let c = sound.counted l.ref in omega arith))
                  (counted-All st.leases st.leases (λ r. omega arith)) sound.working;
          }
