-- ===== src/Deadlines/Examples.antt =====
-- Runs of the pool of threads, and nested deadlines.
use e_slams.Prelude.{
  All, List, Option, [], false, get_elem?, none, refl, some, true, ℕ, ◌∷◌, ◌≡◌, ◌≢◌,
}
use e_slams.Deadlines.{
  Answer, Event, Pool, Worker, claim, done, effective, expired, gives_up, nested, overfull,
  quarantined, remaining, requested_at, requests, run, start_fails, starts,
}
use e_slams.Deadlines.Capacity.{IsBalanced}
use e_slams.Deadlines.Balance.{agent-quarantine, calls-IsBalanced}
use e_slams.Deadlines.Nesting.{IsMet, nested-IsMet}

-- The call of agent 7 gives up; the second is refused while the thread goes on.
abbrev events : List Event
events = requests 7 ∷ requests 8 ∷ starts 0 ∷ gives_up 0 ∷ requests 7 ∷ start_fails 1 ∷ []

abbrev worker : Worker
worker = record { agent = 7; started = true; awaited = false }

abbrev left_pool : Pool
left_pool = record { calls = 7 ∷ []; free = 31; workers = worker ∷ [] }

abbrev answers : List Answer
answers = done ∷ done ∷ done ∷ done ∷ quarantined ∷ done ∷ []

calls-IsBalanced_example : IsBalanced left_pool × All (λ answer. answer ≢ overfull) answers
unfolding run
calls-IsBalanced_example = calls-IsBalanced events left_pool answers refl

left_pool-IsBalanced : IsBalanced left_pool
unfolding run
left_pool-IsBalanced = (calls-IsBalanced events left_pool answers refl).0

agent-quarantine_example :
    ((i : ℕ) (w : Worker)
      → get_elem? left_pool.workers i ≡ some w
      → w.agent ≡ 7
      → claim left_pool 7 ≡ (left_pool, quarantined))
    × (left_pool.workers ≡ [] → (claim left_pool 7).1 ≡ done)
agent-quarantine_example = agent-quarantine left_pool 7 left_pool-IsBalanced

abbrev actions : List (ℕ × Option ℕ)
actions = (30, some 50) ∷ (20, none) ∷ (10, some 40) ∷ []

outer_deadline : nested actions ≡ some 50
unfolding nested effective
outer_deadline = refl

late : remaining false (nested actions) 60 ≡ expired
unfolding nested effective remaining
late = refl

nested-IsMet_example : All (λ a. IsMet (nested actions) (requested_at a.0 a.1)) actions
nested-IsMet_example = nested-IsMet actions
