-- ===== src/Sessions.antt =====
-- Runner sessions, src/eslams/runner_session.py: `RunnerSessionStore` under concurrent calls. The
-- session objects lie in a heap, since a call keeps its session after the store has dropped it. A
-- call is the atomic steps between its waits: it takes a lease, enters the session's lock, acts and
-- ends the lease. Monotonic and wall clock times are arguments. What a call returns to its caller
-- is left out, but for what it was refused for.
pub mod Reaping
pub mod Table
pub mod Sound
pub mod Calls
pub mod Closing
pub mod Admission
pub mod Events
pub mod Run
pub mod Leases
pub mod Finishing
pub mod Ending
pub mod Refinement
pub mod Listing
pub mod Refines
mod Examples
use Prim.Native.Char.{Char, code}
use e_slams.Prelude.{
  Bool, List, Option, String, [], count_if, false, if◌then◌else◌, is_some, leb, length, ltb, none,
  remove_at, set, some, str_eq, suc, true, zero, ℕ, ◌&&◌, ◌++◌, ◌+◌, ◌-◌, ◌==◌, ◌||◌, ◌∷◌,
}

pub record Session (S : Type 0) : Type 0 where
  pub session_id : String
  pub state : S
  pub last_used_at_ms : ℕ
  pub activity : ℕ
  pub users : ℕ
  pub closed : Bool

-- A call that holds a lease: before it has the session's lock, with it, after it has closed the
-- session, and after it has let the lock go.
pub data Phase : Type 0 where
  waiting inside closing leaving : Phase

-- `id` is the argument of the call.
pub record Lease : Type 0 where
  pub id : String
  pub ref : ℕ
  pub phase : Phase

abbrev pub has_lock : Phase → Bool
has_lock waiting = false
has_lock inside = true
has_lock closing = true
has_lock leaving = false

-- The lease is of the object, and has its lock.
abbrev pub holds_lock : ℕ → Lease → Bool
holds_lock ref l = l.ref == ref && has_lock l.phase

-- `_sessions` is `table`, from an id to a session object.
pub record Store (S : Type 0) : Type 0 where
  pub max_sessions : Option ℕ
  pub idle_ttl_seconds : Option ℕ
  pub heap : ℕ → Session S
  pub next_ref : ℕ
  pub table : List (String × ℕ)
  pub leases : List Lease

pub data Answer : Type 0 where
  done : Answer
  invalid_id : Answer
  session_exists : Answer
  capacity_occupied : Answer
  unknown_session : Answer

-- One of the classes of `_SESSION_ID_RE`.
abbrev is_alphanumeric : ℕ → Bool
is_alphanumeric c = (leb 48 c && leb c 57) || (leb 65 c && leb c 90) || (leb 97 c && leb c 122)

abbrev is_token : ℕ → Bool
is_token c = is_alphanumeric c || c == 46 || c == 95 || c == 58 || c == 45

-- At most `n` further characters, each of the token class.
tokens_up_to : ℕ → String → Bool
tokens_up_to n String.[] = true
tokens_up_to zero (String.◌∷◌ c s) = false
tokens_up_to (suc n) (String.◌∷◌ c s) = is_token (code c) && tokens_up_to n s

-- `_SESSION_ID_RE.fullmatch(resolved_id) is not None`
unfoldable pub is_session_id : String → Bool
unfolding tokens_up_to
is_session_id String.[] = false
is_session_id (String.◌∷◌ c s) = is_alphanumeric (code c) && tokens_up_to 127 s

abbrev pub find : String → List (String × ℕ) → Option ℕ
find id [] = none
find id ((k, r) ∷ t) = if str_eq k id then some r else find id t

abbrev pub delete : String → List (String × ℕ) → List (String × ℕ)
delete id [] = []
delete id ((k, r) ∷ t) = if str_eq k id then t else (k, r) ∷ delete id t

abbrev pub is_full : Option ℕ → ℕ → Bool
is_full none n = false
is_full (some max) n = leb max n

-- `self._sessions.get(session_id) is session`
abbrev pub finds : String → ℕ → List (String × ℕ) → Bool
finds id ref table = elim (find id table) as (λ _. Bool) [ none ↦ false | some r ↦ r == ref ]

module _ {S : Type 0} where
  abbrev pub write : (ℕ → Session S) → ℕ → Session S → ℕ → Session S
  write heap ref s r = if r == ref then s else heap r

  -- `session._users == 0 and now - session._activity >= self.idle_ttl_seconds`
  abbrev pub is_idle : ℕ → ℕ → Session S → Bool
  is_idle ttl now s = s.users == 0 && leb (s.activity + ttl) now

  abbrev pub closed_session : Session S → Session S
  closed_session s = record s { closed = true }

  -- The loop of `_reap_locked`.
  pub reap_entries :
      ℕ → ℕ → (ℕ → Session S) → List (String × ℕ) → (ℕ → Session S) × List (String × ℕ)
  reap_entries ttl now heap [] = (heap, [])
  reap_entries ttl now heap ((k, r) ∷ t) =
      let idle = is_idle ttl now (heap r) in
      let rest =
        reap_entries ttl now (if idle then write heap r (closed_session (heap r)) else heap) t in
      (rest.0, if idle then rest.1 else (k, r) ∷ rest.1)

  abbrev reap_with : Option ℕ → ℕ → Store S → Store S
  reap_with none now st = st
  reap_with (some ttl) now st =
      let r = reap_entries ttl now st.heap st.table in record st { heap = r.0; table = r.1 }

  -- `_reap_locked`
  unfoldable pub reap : ℕ → Store S → Store S
  unfolding reap_entries
  reap now st = reap_with st.idle_ttl_seconds now st

  -- The end of `create`, under the lock and after the reaping.
  pub admit : Store S → String → S → ℕ → ℕ → Store S × Answer
  admit st id state now wall =
      if is_some (find id st.table)
      then (st, session_exists)
      else if is_full st.max_sessions (length st.table)
      then (st, capacity_occupied)
      else (
        record st {
          heap = write st.heap st.next_ref (record {
            session_id = id;
            state = state;
            last_used_at_ms = wall;
            activity = now;
            users = 0;
            closed = false;
          });
          next_ref = st.next_ref + 1;
          table = st.table ++ (id, st.next_ref) ∷ [];
        },
        done,
      )

  -- `create`, with the state that the arena or the signed snapshot gives
  pub create : Store S → String → S → ℕ → ℕ → Store S × Answer
  unfolding reap admit
  create st id state now wall =
      if is_session_id id then admit (reap now st) id state now wall else (st, invalid_id)

  pub take_lease : Store S → String → Option ℕ → Store S × Answer
  take_lease st id none = (st, unknown_session)
  take_lease st id (some r) = (
    record st {
      heap = write st.heap r (record (st.heap r) { users = (st.heap r).users + 1 });
      leases = st.leases ++ record { id = id; ref = r; phase = waiting } ∷ [];
    },
    done,
  )

  -- The first part of `_lease`, under the store's lock.
  pub begin : Store S → String → ℕ → Store S × Answer
  unfolding reap take_lease
  begin st id now = let st' = reap now st in take_lease st' id (find id st'.table)

  -- The `finally` part of `_lease`.
  pub end_lease : Store S → ℕ → Lease → ℕ → Store S
  end_lease st i l now = record st {
    heap =
        write st.heap l.ref
          (record (st.heap l.ref) { users = (st.heap l.ref).users - 1; activity = now });
    leases = remove_at st.leases i;
  }

  abbrev pub set_phase : Store S → ℕ → Lease → Phase → Store S
  set_phase st i l phase = record st { leases = set st.leases i (record l { phase = phase }) }

  -- `with session._lock: if session._closed: raise`
  pub enter : Store S → ℕ → Lease → Store S × Answer
  enter st i l =
      if (st.heap l.ref).closed
      then (set_phase st i l leaving, unknown_session)
      else (set_phase st i l inside, done)

  -- The body of `close`.
  pub close_session : Store S → ℕ → Lease → Store S
  close_session st i l = record (set_phase st i l closing) {
    heap = write st.heap l.ref (closed_session (st.heap l.ref));
    table = if finds l.id l.ref st.table then delete l.id st.table else st.table;
  }

  -- Another call has the session's lock.
  abbrev pub is_locked : Store S → ℕ → Bool
  is_locked st ref = ltb 0 (count_if (holds_lock ref) st.leases)

  -- `session.state = ...` and `session.touch()`
  abbrev pub advance : Store S → Lease → Option S → ℕ → Store S
  advance st l none wall = record st {
    heap = write st.heap l.ref (record (st.heap l.ref) { last_used_at_ms = wall });
  }
  advance st l (some state) wall = record st {
    heap = write st.heap l.ref (record (st.heap l.ref) { state = state; last_used_at_ms = wall });
  }

-- `RunnerSessionStore.__init__`; the state stands for what lies where no object was made.
pub new_store : {S : Type 0} → Option ℕ → Option ℕ → S → Store S
new_store max ttl s = record {
  max_sessions = max;
  idle_ttl_seconds = ttl;
  heap = λ _. record {
    session_id = String.[];
    state = s;
    last_used_at_ms = 0;
    activity = 0;
    users = 0;
    closed = true;
  };
  next_ref = 0;
  table = [];
  leases = [];
}
