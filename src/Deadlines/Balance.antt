-- ===== src/Deadlines/Balance.antt =====
-- Capacity and quarantine of src/eslams/deadlines.py, over every order of events.
use e_slams.Prelude.{
  All, List, [], arith, bind-some, count_if, false, get_elem?, guarded_some, if_rule, not, refl,
  refused_some, some, some-injective, subst, sym, true, ℕ, ◌&&◌, ◌+◌, ◌==◌, ◌>>=◌, ◌∙◌, ◌∷◌, ◌≡◌,
  ◌≢◌,
}
use e_slams.Deadlines.{
  Answer, Event, Pool, Worker, at_worker, call_capacity, calls_has, claim, done, event, finishes,
  gives_up, is_available, new_pool, overfull, quarantined, release, requests, rewrite, run,
  start_fails, starts, worker_event,
}
use e_slams.Deadlines.Capacity.{
  IsBalanced, called, calls_has-count, claim-IsBalanced, claimed, release-IsBalanced,
  rewrite-IsBalanced,
}

-- What an event leads to: a balanced pool, and no release of more than was claimed.
abbrev Kept : Pool × Answer → Type 0
Kept r = IsBalanced r.0 × (r.1 ≢ overfull)

claim-Kept : (pool : Pool) (agent : ℕ) → (claim pool agent).1 ≢ overfull
unfolding claim
claim-Kept pool agent =
    if_rule {A = Pool × Answer} (λ r. r.1 ≢ overfull) (not (is_available pool agent))
      (λ _ bad. absurd cc)
      (λ _.
        if_rule {A = Pool × Answer} (λ r. r.1 ≢ overfull) (pool.free == 0) (λ _ bad. absurd cc)
          (λ _ bad. absurd cc))

release-Kept :
    (pool : Pool) (i : ℕ) (w : Worker)
    → get_elem? pool.workers i ≡ some w
    → IsBalanced pool
    → Kept (release pool i w)
release-Kept pool i w at_i b =
    let (balanced, ok) = release-IsBalanced pool i w at_i b in
    (balanced, λ bad. absurd (let e : done ≡ overfull = sym ok ∙ bad in cc))

worker_event-Kept :
    (pool : Pool) (i : ℕ) (w : Worker) (e : Event) (r : Pool × Answer)
    → get_elem? pool.workers i ≡ some w
    → worker_event pool i w e ≡ some r
    → IsBalanced pool
    → Kept r
worker_event-Kept pool i w (requests agent) r at_i h b = absurd cc
worker_event-Kept pool i w (starts _) r at_i h b =
    let (_, e) =
      refused_some w.started (some (rewrite pool i (record w { started = true }), done)) h in
    subst Kept (some-injective _ _ e)
      (rewrite-IsBalanced pool i w (record w { started = true }) at_i refl b, λ bad. absurd cc)
worker_event-Kept pool i w (start_fails _) r at_i h b =
    let (_, e) = refused_some w.started (some (release pool i w)) h in
    subst Kept (some-injective _ _ e) (release-Kept pool i w at_i b)
worker_event-Kept pool i w (finishes _) r at_i h b =
    let (_, e) = guarded_some w.started (release pool i w) h in
    subst Kept e (release-Kept pool i w at_i b)
worker_event-Kept pool i w (gives_up _) r at_i h b =
    let (_, e) =
      guarded_some (w.started && w.awaited) (rewrite pool i (record w { awaited = false }), done)
        h in
    subst Kept e
      (rewrite-IsBalanced pool i w (record w { awaited = false }) at_i refl b, λ bad. absurd cc)

at_worker-Kept :
    (pool : Pool) (i : ℕ) (e : Event) (r : Pool × Answer)
    → at_worker pool i e ≡ some r
    → IsBalanced pool
    → Kept r
at_worker-Kept pool i e r h b =
    let (w, at_i, ran) = bind-some (get_elem? pool.workers i) (λ w. worker_event pool i w e) h in
    worker_event-Kept pool i w e r at_i ran b

event-Kept :
    (pool : Pool) (e : Event) (r : Pool × Answer) → event pool e ≡ some r → IsBalanced pool → Kept r
unfolding event
event-Kept pool (requests agent) r h b =
    subst Kept (some-injective _ _ h) (claim-IsBalanced pool agent b, claim-Kept pool agent)
event-Kept pool (starts i) r h b = at_worker-Kept pool i (starts i) r h b
event-Kept pool (start_fails i) r h b = at_worker-Kept pool i (start_fails i) r h b
event-Kept pool (finishes i) r h b = at_worker-Kept pool i (finishes i) r h b
event-Kept pool (gives_up i) r h b = at_worker-Kept pool i (gives_up i) r h b

run-Kept :
    (pool : Pool) (es : List Event) (r : Pool × List Answer)
    → run pool es ≡ some r
    → IsBalanced pool
    → IsBalanced r.0 × All (λ answer. answer ≢ overfull) r.1
unfolding run
run-Kept pool [] r h b =
    subst (λ r. IsBalanced r.0 × All (λ answer. answer ≢ overfull) r.1) (some-injective _ _ h)
      (b, tt)
run-Kept pool (e ∷ es) r h b =
    let (first, ran, then_ran) =
      bind-some (event pool e) (λ r. run r.0 es >>= λ rest. some (rest.0, r.1 ∷ rest.1)) h in
    let (rest, rest_ran, same) =
      bind-some (run first.0 es) (λ rest. some (rest.0, first.1 ∷ rest.1)) then_ran in
    let (balanced, ok) = event-Kept pool e first ran b in
    let (end, oks) = run-Kept first.0 es rest rest_ran balanced in
    subst (λ r. IsBalanced r.0 × All (λ answer. answer ≢ overfull) r.1) (some-injective _ _ same)
      (end, (ok, oks))

new_pool-IsBalanced : IsBalanced new_pool
new_pool-IsBalanced = record { capacity = refl; entries = λ a. refl; single = λ a. omega arith }

-- In every order of calls, starts, ends and give-ups each thread has claimed one of the capacity of
-- 32 and the only entry of its agent, and the bounded semaphore is never released once too often.
pub calls-IsBalanced :
    (es : List Event) (pool : Pool) (answers : List Answer)
    → run new_pool es ≡ some (pool, answers)
    → IsBalanced pool × All (λ answer. answer ≢ overfull) answers
calls-IsBalanced es pool answers h = run-Kept new_pool es (pool, answers) h new_pool-IsBalanced

-- An agent whose thread is not over, awaited or given up, is refused and nothing changes; and once
-- all threads are over every agent is let in.
pub agent-quarantine :
    (pool : Pool) (agent : ℕ)
    → IsBalanced pool
    → ((i : ℕ) (w : Worker)
        → get_elem? pool.workers i ≡ some w
        → w.agent ≡ agent
        → claim pool agent ≡ (pool, quarantined))
      × (pool.workers ≡ [] → (claim pool agent).1 ≡ done)
unfolding claim
agent-quarantine pool agent b = (
  λ i w at_i same.
      let e = claimed pool i w at_i b in
      let known = calls_has-count agent pool.calls in
      let here : calls_has agent pool.calls ≡ true = known ∙ rw (← same) (ground arith) in
      rw here refl,
  λ over.
      let known = calls_has-count agent pool.calls in
      let entries = b.entries agent in
      let capacity = b.capacity in
      let empty : count_if (called agent) pool.calls ≡ 0 = entries ∙ rw over refl in
      let unknown : calls_has agent pool.calls ≡ false = known ∙ rw empty refl in
      let full : pool.free + 0 ≡ call_capacity = rw over at capacity in
      let room : (pool.free == 0) ≡ false = ground arith in rw (unknown, room) refl,
)
