-- ===== src/Runner/Examples.antt =====
-- Runs of Kalah by the match loop, and the loop's theorems at them.
use e_slams.Prelude.{
  All, String, false, if◌then◌else◌, length, ltb, map, none, refl, some, true, ℕ, ◌∷◌, ◌≡◌, ◌≤◌,
}
use e_slams.Arena.{BySeat, Player, failure_action, nat_action, player_1, player_2}
use e_slams.Arenas.Mancala.{Board, State, initial_state, rules}
use e_slams.Arenas.Mancala.Contract.{mancala-IsArena}
use e_slams.Runner.State.{RunConfig, RunState, fallback, forfeit}
use e_slams.Runner.Calls.{Call, acted, agent_error_no_action, call_agent, crashed, has_agent_error}
use e_slams.Runner.Loop.{run}
use e_slams.Runner.Loop.Validity.{IsAccounted, run-IsAccounted}
use e_slams.Runner.Loop.Trace.{Linked, first_replay, replay_of, run-IsRecorded}
use e_slams.Runner.Loop.Termination.{run_total}
use e_slams.Runner.Loop.Applying.{HasReason, run-applies}
use e_slams.Prelude.Int.{pos}

abbrev fallback_config : RunConfig
fallback_config = record {
  max_turns = some 5;
  time_budget_ms = some 100;
  on_agent_error = forfeit;
  on_illegal_action = fallback;
}

abbrev one_hash : State → String
one_hash _ = "hash"

-- Player 1 plays its first legal pit; player 2 plays no legal pit, and crashes in the end.
abbrev two_agents : Player → State → Call
two_agents player_1 s = record { result = acted (failure_action s player_1) none; latency_ms = 7 }
two_agents player_2 s = record {
  result = if ltb s.turn 4 then acted (some (nat_action 9)) none else crashed;
  latency_ms = 7;
}

abbrev match_run :
    (s : RunState Board (BySeat ℕ)) × (run rules one_hash fallback_config
        (λ _. false)
        two_agents
        (pos 1)
      ≡ some s)
    × (length s.trace_events ≡ s.state.turn)
    × (s.state.turn ≤ 5)
match_run = run_total rules one_hash mancala-IsArena fallback_config (λ _. false) two_agents (pos 1)

run_total_example :
    (s : RunState Board (BySeat ℕ)) × (run rules one_hash fallback_config
        (λ _. false)
        two_agents
        (pos 1)
      ≡ some s)
    × (length s.trace_events ≡ s.state.turn)
    × (s.state.turn ≤ 5)
run_total_example =
    run_total rules one_hash mancala-IsArena fallback_config (λ _. false) two_agents (pos 1)

run-IsRecorded_example :
    Linked rules one_hash (initial_state (pos 1)) match_run.0.trace_events match_run.0.state
    × (match_run.0.replay_events
        ≡ first_replay rules one_hash (initial_state (pos 1))
          ∷ map (replay_of rules one_hash) match_run.0.trace_events)
unfolding rules
run-IsRecorded_example =
    run-IsRecorded rules one_hash fallback_config (λ _. false) two_agents (pos 1) match_run.0
      match_run.1

run-IsAccounted_example :
    IsAccounted match_run.0
    × (match_run.0.valid_for_scoring ≡ true → match_run.0.state.terminal ≡ true)
run-IsAccounted_example =
    run-IsAccounted rules one_hash fallback_config (λ _. false) two_agents (pos 1) match_run.0
      match_run.1

run-applies_example : All HasReason match_run.0.errors
run-applies_example =
    run-applies rules one_hash mancala-IsArena fallback_config (λ _. false) two_agents (pos 1)
      match_run.0 match_run.1

abbrev late : Call
late = record { result = acted (some (nat_action 1)) none; latency_ms = 6 }

late_error : has_agent_error (call_agent (some 5) late).1 ≡ true
unfolding call_agent has_agent_error
late_error = refl

agent_error_no_action_example : (call_agent (some 5) late).0.action ≡ none
agent_error_no_action_example = agent_error_no_action (some 5) late late_error
