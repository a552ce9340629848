-- ===== src/Deadlines.antt =====
-- Deadlines and worker threads, src/eslams/deadlines.py: the threads that callbacks run in, with
-- their capacity and the quarantine of agents, as the steps between two uses of `_CALL_LOCK`; and
-- the deadline of an action. Times are milliseconds of the monotonic clock. An agent is its `id`.
pub mod Capacity
pub mod Balance
pub mod Nesting
mod Examples
use e_slams.Prelude.{
  Bool, List, Option, [], any, false, get_elem?, if◌then◌else◌, leb, ltb, none, not, remove_at, set,
  some, true, ℕ, ◌&&◌, ◌++◌, ◌+◌, ◌-◌, ◌==◌, ◌>>=◌, ◌∷◌,
}

abbrev pub call_capacity : ℕ
call_capacity = 32

-- A thread that a call has claimed capacity for: whether it has been started, and whether the call
-- still waits for it.
pub record Worker : Type 0 where
  pub agent : ℕ
  pub started : Bool
  pub awaited : Bool

-- `calls` are the keys of `_CALLS`, `free` is what `_CALL_CAPACITY` has left.
pub record Pool : Type 0 where
  pub calls : List ℕ
  pub free : ℕ
  pub workers : List Worker

pub data Answer : Type 0 where
  done : Answer
  quarantined : Answer
  capacity_occupied : Answer
  overfull : Answer

abbrev pub new_pool : Pool
new_pool = record { calls = []; free = call_capacity; workers = [] }

-- id(agent) in _CALLS
abbrev pub calls_has : ℕ → List ℕ → Bool
calls_has agent calls = any (λ a. a == agent) calls

-- _CALLS.pop(identity, None)
abbrev pub pop : ℕ → List ℕ → List ℕ
pop agent [] = []
pop agent (a ∷ calls) = let rest = pop agent calls in if a == agent then calls else a ∷ rest

-- `ensure_agent_available`
abbrev pub is_available : Pool → ℕ → Bool
is_available pool agent = not (calls_has agent pool.calls)

-- The start of `call_in_thread`, under the lock.
unfoldable pub claim : Pool → ℕ → Pool × Answer
claim pool agent =
    if not (is_available pool agent)
    then (pool, quarantined)
    else if pool.free == 0
    then (pool, capacity_occupied)
    else (
      record {
        calls = agent ∷ pool.calls;
        free = pool.free - 1;
        workers = pool.workers ++ record { agent = agent; started = false; awaited = true } ∷ [];
      },
      done,
    )

-- `_CALLS.pop(identity, None)` and the release of a bounded semaphore, which raises when it would
-- have more than it began with. The thread is over.
unfoldable pub release : Pool → ℕ → Worker → Pool × Answer
release pool i w =
    let left = pop w.agent pool.calls in
    let others = remove_at pool.workers i in
    if ltb pool.free call_capacity
    then (record { calls = left; free = pool.free + 1; workers = others }, done)
    else (record pool { calls = left; workers = others }, overfull)

abbrev pub rewrite : Pool → ℕ → Worker → Pool
rewrite pool i w = record pool { workers = set pool.workers i w }

-- What may happen next; a number but that of an agent is the place of a worker in the list.
pub data Event : Type 0 where
  requests : ℕ → Event
  starts : ℕ → Event
  start_fails : ℕ → Event
  finishes : ℕ → Event
  gives_up : ℕ → Event

-- An event of a worker; `none` where it cannot happen. The thread that is started may finish and
-- the call may give it up, by its deadline or its cancellation, in either order.
abbrev pub worker_event : Pool → ℕ → Worker → Event → Option (Pool × Answer)
worker_event pool i w (requests agent) = none
worker_event pool i w (starts _) =
    if w.started then none else some (rewrite pool i (record w { started = true }), done)
worker_event pool i w (start_fails _) = if w.started then none else some (release pool i w)
worker_event pool i w (finishes _) = if w.started then some (release pool i w) else none
worker_event pool i w (gives_up _) =
    if w.started && w.awaited
    then some (rewrite pool i (record w { awaited = false }), done)
    else none

abbrev pub at_worker : Pool → ℕ → Event → Option (Pool × Answer)
at_worker pool i e = get_elem? pool.workers i >>= λ w. worker_event pool i w e

pub event : Pool → Event → Option (Pool × Answer)
unfolding claim release
event pool (requests agent) = some (claim pool agent)
event pool (starts i) = at_worker pool i (starts i)
event pool (start_fails i) = at_worker pool i (start_fails i)
event pool (finishes i) = at_worker pool i (finishes i)
event pool (gives_up i) = at_worker pool i (gives_up i)

-- The events of calls and threads in the order they happen, with the answers they had.
pub run : Pool → List Event → Option (Pool × List Answer)
unfolding event
run pool [] = some (pool, [])
run pool (e ∷ es) = event pool e >>= λ r. run r.0 es >>= λ rest. some (rest.0, r.1 ∷ rest.1)

-- `effective` in `action_deadline`: of the deadline asked for and the one around it.
unfoldable pub effective : Option ℕ → Option ℕ → Option ℕ
effective (some requested) (some existing) =
    some (if leb requested existing then requested else existing)
effective none existing = existing
effective requested none = requested

-- `requested` in `action_deadline`
abbrev pub requested_at : ℕ → Option ℕ → Option ℕ
requested_at now none = none
requested_at now (some milliseconds) = some (now + milliseconds)

pub data Remaining : Type 0 where
  cancelled : Remaining
  unlimited : Remaining
  expired : Remaining
  left : ℕ → Remaining

-- `remaining_seconds`, after `check_cancelled`
unfoldable pub remaining : Bool → Option ℕ → ℕ → Remaining
remaining true deadline now = cancelled
remaining false none now = unlimited
remaining false (some deadline) now = if leb deadline now then expired else left (deadline - now)

-- The deadline of nested actions, from the innermost; each is asked for at a time.
pub nested : List (ℕ × Option ℕ) → Option ℕ
unfolding effective
nested [] = none
nested ((now, milliseconds) ∷ around) = effective (requested_at now milliseconds) (nested around)
