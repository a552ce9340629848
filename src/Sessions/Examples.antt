-- ===== src/Sessions/Examples.antt =====
-- Runs of a session store with concurrent calls.
use e_slams.Prelude.{
  All, List, Option, [], false, none, refl, some, suc, true, zero, ℕ, ◌+◌, ◌∷◌, ◌≡◌, ◌≤◌, ◌⊎◌,
}
use e_slams.Sessions.{Answer, Lease, Store, done, inside, is_session_id, new_store, reap, waiting}
use e_slams.Sessions.Sound.{IsSound}
use e_slams.Sessions.Refinement.{apply, op_of, view}
use e_slams.Sessions.Refines.{event-Refines}
use e_slams.Sessions.Ending.{IsQuiet, calls-finish}
use e_slams.Sessions.Finishing.{finishes, work}
use e_slams.Sessions.Leases.{leased-open}
use e_slams.Sessions.Run.{calls-IsSound}
use e_slams.Sessions.Events.{
  Event, begins, closes, creates, ends, enters, event, leaves, pings, run, steps,
}

-- A session that counts: an action adds, and zero is refused.
add_up : ℕ → ℕ → Option ℕ
add_up state zero = none
add_up state (suc n) = some (state + suc n)

abbrev first_events : List (Event ℕ ℕ)
first_events = creates "a" 5 0 1 ∷ begins "a" 1 ∷ begins "a" 2 ∷ enters 0 ∷ steps 0 3 9 ∷ []

abbrev fresh : Store ℕ
fresh = new_store (some 2) (some 10) 0

-- Two calls hold leases of a session; the first is inside.
abbrev busy : Store ℕ
busy = elim (run add_up fresh first_events) as (λ _. Store ℕ) [ none ↦ fresh | some st ↦ st ]

abbrev second_lease : Lease
second_lease = record { id = "a"; ref = 0; phase = waiting }

-- A reaping long after leaves the session, since it has users.
state_after : (busy.heap 0).state ≡ 8
unfolding run add_up is_session_id new_store
state_after = refl

locked_out : event add_up busy (enters 1) ≡ none
unfolding run add_up event is_session_id new_store
locked_out = refl

busy-IsSound : IsSound busy
unfolding run add_up is_session_id new_store
busy-IsSound = calls-IsSound add_up (some 2) (some 10) 0 first_events busy refl

calls-IsSound_example : IsSound busy
unfolding run add_up is_session_id new_store
calls-IsSound_example = calls-IsSound add_up (some 2) (some 10) 0 first_events busy refl

leased-open_example : ((reap 100 busy).heap 0).closed ≡ false
unfolding run add_up event is_session_id new_store
leased-open_example =
    leased-open add_up busy (reap 100 busy) (pings 100) done 1 second_lease busy-IsSound refl refl
      refl refl

-- The call inside closes its session and leaves; the one that waits is refused.
abbrev last_events : List (Event ℕ ℕ)
last_events = closes 0 ∷ leaves 0 ∷ enters 1 ∷ ends 0 3 ∷ []

abbrev left : Store ℕ
left = elim (run add_up busy last_events) as (λ _. Store ℕ) [ none ↦ fresh | some st ↦ st ]

calls-finish_example :
    (4 + work left.leases ≤ work busy.leases)
    × All (λ l. l.phase ≡ inside → (left.heap l.ref).closed ≡ false) left.leases
    × (IsQuiet add_up left
        ⊎ ((e : Event ℕ ℕ) × (r : Store ℕ × Answer) × (event add_up left e ≡ some r)
            × (finishes e ≡ true)))
unfolding run add_up is_session_id new_store
calls-finish_example =
    calls-finish add_up (some 2) (some 10) 0 first_events last_events busy left refl refl refl

-- A store that keeps its sessions, in which a call is inside.
abbrev kept_store : Store ℕ
kept_store = elim (run add_up (new_store (some 2) none 0) first_events) as (λ _. Store ℕ) [
  | none ↦ fresh
  | some st ↦ st
]

abbrev stepped_store : Store ℕ
stepped_store = elim (event add_up kept_store (steps 0 4 10)) as (λ _. Store ℕ) [
  | none ↦ fresh
  | some r ↦ r.0
]

event-Refines_example :
    view stepped_store "a"
    ≡ apply (op_of add_up kept_store.leases (steps 0 4 10) done) (view kept_store) "a"
unfolding run add_up is_session_id new_store event
event-Refines_example =
    event-Refines add_up (some 2) 0 first_events kept_store stepped_store (steps 0 4 10) done refl
      refl "a"
