-- ===== src/Runner/State.antt =====
-- The configuration and the state of `Runner.run` (src/eslams/runner.py).
use e_slams.Prelude.{
  Bool, List, Option, String, [], false, if◌then◌else◌, none, some, true, ℕ, ◌++◌, ◌+◌, ◌∷◌,
}
use e_slams.Json.{Json}
use e_slams.Arena.{ArenaState, BySeat, InvalidReason, Player, at_seat, put_seat}
use e_slams.Runner.Calls.{contains}

pub data FailurePolicy : Type 0 where
  invalid_match forfeit fallback : FailurePolicy

pub data Provenance : Type 0 where
  provider_action local_action fallback_action : Provenance

-- The fields of `RunConfig` that steer a run.
pub record RunConfig : Type 0 where
  pub max_turns : Option ℕ
  pub time_budget_ms : Option ℕ
  pub on_agent_error : FailurePolicy
  pub on_illegal_action : FailurePolicy

-- An entry of the trace: the state before, the one after, and the action between.
pub record TraceEvent (Public Extra : Type 0) : Type 0 where
  pub before : ArenaState Public Extra
  pub after : ArenaState Public Extra
  pub player : Player
  pub action : Option Json
  pub is_forfeit : Bool

-- An entry of the replay; `hash_before` is none at the first.
pub record ReplayEvent (Public Extra : Type 0) : Type 0 where
  pub state : ArenaState Public Extra
  pub action : Option Json
  pub hash_before : Option String

pub record ErrorRow : Type 0 where
  pub turn_id : ℕ
  pub reason : Option InvalidReason

-- The variables of the loop. The event lists are in order of time.
pub record RunState (Public Extra : Type 0) : Type 0 where
  pub state : ArenaState Public Extra
  pub trace_events : List (TraceEvent Public Extra)
  pub replay_events : List (ReplayEvent Public Extra)
  pub errors : List ErrorRow
  pub agent_errors : BySeat ℕ
  pub illegal_actions : BySeat ℕ
  pub fallback_actions : BySeat ℕ
  pub logical_actions : BySeat ℕ
  pub valid_for_scoring : Bool
  pub invalid_reason : Option InvalidReason
  pub reason_codes : List String

abbrev pub bump : BySeat ℕ → Player → BySeat ℕ
bump d player = put_seat d player (at_seat d player + 1)

-- `if code not in codes: codes.append(code)`
abbrev pub add_code : String → List String → List String
add_code code codes = if contains code codes then codes else codes ++ code ∷ []

-- `invalid_reason or reason`
abbrev pub or_reason : Option InvalidReason → InvalidReason → Option InvalidReason
or_reason none r = some r
or_reason (some q) r = some q

abbrev pub is_fallback : FailurePolicy → Bool
is_fallback fallback = true
is_fallback _ = false

abbrev pub is_forfeit_policy : FailurePolicy → Bool
is_forfeit_policy forfeit = true
is_forfeit_policy _ = false

-- What phase 2 hands to phase 3: the action and the markers of this turn.
pub record Choice : Type 0 where
  pub action : Option Json
  pub markers : List String
  pub provenance : Provenance
