-- ===== src/Runner/Loop.antt =====
-- The loop of `Runner.run` in src/eslams/runner.py.
pub mod Validity
pub mod Trace
pub mod Termination
pub mod Applying
use mathlib.Core.Option
use e_slams.Prelude.{
  Bool, Flow, List, Option, String, [], false, if◌then◌else◌, leb, ltb, map, none, not, some, true,
  while_flow, ℕ, ◌&&◌, ◌++◌, ◌∷◌,
}
use e_slams.Arena.{ArenaState, Player, run_truncated}
use e_slams.Arena.Contract.{Rules}
use e_slams.Runner.{after_agent, agent_phase}
use e_slams.Runner.State.{RunConfig, RunState, bump, or_reason}
use e_slams.Runner.Calls.{Call, Response, call_agent}
use e_slams.Prelude.Int.{ℤ}

module _ {Public Extra : Type 0} (rules : Rules Public Extra)
    (state_hash : ArenaState Public Extra → String) where
  abbrev count_action : RunState Public Extra → RunState Public Extra
  count_action s = record s { logical_actions = bump s.logical_actions s.state.active_player }

  module _ (config : RunConfig) (backed : Player → Bool)
      (agents : Player → ArenaState Public Extra → Call) where
    -- The body of the loop, with the response and the markers of `_call_agent`.
    answered :
        Response × List String → RunState Public Extra → Flow (RunState Public Extra) (Unit {0})
    unfolding agent_phase after_agent
    answered (response, markers) s =
        let player = s.state.active_player in
        after_agent rules state_hash config player (backed player) response markers
          (agent_phase rules state_hash config player response markers (count_action s))

    pub play_turn : RunState Public Extra → Flow (RunState Public Extra) (Unit {0})
    unfolding answered call_agent
    play_turn s =
        answered (call_agent config.time_budget_ms (agents s.state.active_player s.state)) s

    abbrev pub turn_limit : ℕ
    turn_limit = elim config.max_turns [ none ↦ rules.max_turns | some n ↦ n ]

    abbrev pub running : RunState Public Extra → Bool
    running s = not s.state.terminal && ltb s.state.turn turn_limit

    -- `while not state.terminal and state.turn < max_turns:`; `none` is the end of the fuel.
    pub loop : ℕ → RunState Public Extra → Option (RunState Public Extra)
    unfolding play_turn
    loop fuel s = while_flow fuel running play_turn s

    -- The truncation after the loop.
    pub truncate : RunState Public Extra → RunState Public Extra
    truncate s =
        if not s.state.terminal && leb turn_limit s.state.turn
        then record s {
          valid_for_scoring = false;
          invalid_reason = or_reason s.invalid_reason run_truncated;
          reason_codes = s.reason_codes ++ "run_truncated" ∷ [];
        }
        else s

    abbrev pub begin : ℤ → RunState Public Extra
    begin seed = record {
      state = rules.initial_state seed;
      trace_events = [];
      replay_events =
          record { state = rules.initial_state seed; action = none; hash_before = none } ∷ [];
      errors = [];
      agent_errors = record { first = 0; second = 0 };
      illegal_actions = record { first = 0; second = 0 };
      fallback_actions = record { first = 0; second = 0 };
      logical_actions = record { first = 0; second = 0 };
      valid_for_scoring = true;
      invalid_reason = none;
      reason_codes = [];
    }

    -- `Runner.run`, up to the artifact; the fuel is the turn limit.
    pub run : ℤ → Option (RunState Public Extra)
    run seed = Option.map truncate (loop turn_limit (begin seed))
