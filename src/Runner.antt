-- ===== src/Runner.antt =====
-- The match loop, `Runner.run` of src/eslams/runner.py, over any two-seat arena: here the phases of
-- a turn. Each early exit (`break`) of the body is a `halt`. What the loop only records for the
-- artifact (provider receipts and statuses, agent traffic, latencies) is left out: it steers
-- nothing.
pub mod State
pub mod Calls
pub mod Loop
mod Examples
use e_slams.Prelude.{
  Bool, Flow, List, Option, String, [], false, go_on, halt, if◌then◌else◌, none, some, true, ◌++◌,
  ◌+◌, ◌∷◌,
}
use e_slams.Json.{Json}
use e_slams.Arena.{
  ArenaState, InvalidReason, Player, failure_action, is_legal, of_player, other, winner_scores,
}
use e_slams.Arena.Contract.{Rules, public_action}
use e_slams.Runner.State.{
  Choice, FailurePolicy, RunConfig, RunState, add_code, bump, fallback, fallback_action,
  invalid_match, is_forfeit_policy, local_action, or_reason, provider_action,
}
use e_slams.Runner.Calls.{Response, failure_class_from_response, has_agent_error, interruption}

module _ {Public Extra : Type 0} where
  -- `_forfeit_state` at a table of two.
  unfoldable pub forfeit_state :
      ArenaState Public Extra → Player → InvalidReason → ArenaState Public Extra
  forfeit_state s player reason = record s {
    forfeited = some (record {
      terminal_reason = "forfeit";
      winner = some (other player);
      invalid_reason = reason;
      forfeited_player = player;
    });
    turn = s.turn + 1;
    legal_actions_by_player = record { first = []; second = [] };
    scores = winner_scores (some (other player));
    terminal = true;
    outcome = some (record { winner = some (other player); reason = "forfeit"; extra = none });
  }

module _ {Public Extra : Type 0} (rules : Rules Public Extra)
    (state_hash : ArenaState Public Extra → String) where
  -- Both event lists get an entry, and `state = next_state`.
  record_move :
      RunState Public Extra
      → Player
      → Option Json
      → Bool
      → ArenaState Public Extra
      → RunState Public Extra
  record_move s player action gave_up next = record s {
    state = next;
    trace_events =
        s.trace_events
        ++ record {
          before = s.state;
          after = next;
          player = player;
          action = action;
          is_forfeit = gave_up;
        }
          ∷ [];
    replay_events =
        s.replay_events
        ++ record {
          state = next;
          action = public_action rules next action;
          hash_before = some (state_hash s.state);
        }
          ∷ [];
  }

  -- The run is invalid: the reason, and a row of errors.
  invalidate : RunState Public Extra → InvalidReason → RunState Public Extra
  invalidate s reason = record s {
    valid_for_scoring = false;
    invalid_reason = some reason;
    errors = s.errors ++ record { turn_id = s.state.turn; reason = some reason } ∷ [];
  }

  -- The end of a turn that a failure policy other than "fallback" ends.
  give_up :
      RunState Public Extra
      → Player
      → FailurePolicy
      → Option Json
      → InvalidReason
      → RunState Public Extra
  unfolding record_move invalidate
  give_up s player policy action reason =
      let s' = invalidate s reason in
      if is_forfeit_policy policy
      then record_move s' player action true (forfeit_state s'.state player reason)
      else s'

  -- `if error_policy != "fallback": ... break`
  under_policy :
      FailurePolicy
      → RunState Public Extra
      → Player
      → Option Json
      → InvalidReason
      → Flow (RunState Public Extra) (Unit {0})
  unfolding give_up
  under_policy fallback s player action reason = go_on s tt
  under_policy policy s player action reason = halt (give_up s player policy action reason)

  abbrev error_policy : RunConfig → String → FailurePolicy
  error_policy config kind = if interruption kind then invalid_match else config.on_agent_error

  -- Phase 1: an agent error.
  agent_phase :
      RunConfig
      → Player
      → Response
      → List String
      → RunState Public Extra
      → Flow (RunState Public Extra) (Unit {0})
  unfolding under_policy
  agent_phase config player response markers s =
      if has_agent_error markers
      then (let kind = failure_class_from_response response markers in
          under_policy (error_policy config kind)
            (record s {
              agent_errors = bump s.agent_errors player;
              reason_codes = add_code kind (add_code "agent_error" s.reason_codes);
            })
            player response.action (of_player player kind markers))
      else go_on s tt

  -- A fallback action was used.
  note_fallback : RunState Public Extra → Player → List String → RunState Public Extra
  note_fallback s player markers = record s {
    fallback_actions = bump s.fallback_actions player;
    valid_for_scoring = false;
    invalid_reason = or_reason s.invalid_reason (of_player player "fallback_action_used" markers);
    reason_codes = add_code "fallback_action_used" s.reason_codes;
  }

  abbrev own_choice : Bool → Option Json → List String → Choice
  own_choice backed action markers = record {
    action = action;
    markers = markers;
    provenance = if backed then provider_action else local_action;
  }

  -- The arena's failure action, where it has one.
  substituted :
      Player
      → Bool
      → Option Json
      → List String
      → RunState Public Extra
      → RunState Public Extra × Choice
  unfolding note_fallback
  substituted player backed none markers s = (s, own_choice backed none markers)
  substituted player backed (some action) markers s =
      let markers' = markers ++ "fallback_action" ∷ [] in
      (
        note_fallback s player markers',
        record { action = some action; markers = markers'; provenance = fallback_action },
      )

  -- Phase 2: the response's action, or the arena's failure action in its place.
  choose :
      Player
      → Bool
      → Option Json
      → List String
      → RunState Public Extra
      → RunState Public Extra × Choice
  unfolding substituted
  choose player backed (some action) markers s = (s, own_choice backed (some action) markers)
  choose player backed none markers s =
      substituted player backed (failure_action s.state player) markers s

  abbrev allowed : RunState Public Extra → Player → Option Json → Bool
  allowed s player none = false
  allowed s player (some action) = is_legal s.state player action

  -- An illegal action under the policy "fallback": the failure action, if that is legal.
  replace_illegal :
      Player
      → List String
      → RunState Public Extra
      → Option Json
      → Flow (RunState Public Extra) Choice
  unfolding note_fallback invalidate
  replace_illegal player markers s substitute =
      if allowed s player substitute
      then (let markers' = markers ++ "fallback_action" ∷ [] in
          go_on (note_fallback s player markers')
            (record { action = substitute; markers = markers'; provenance = fallback_action }))
      else halt (invalidate s (of_player player "illegal_action_no_fallback" markers))

  refused :
      FailurePolicy
      → Player
      → Option Json
      → List String
      → RunState Public Extra
      → Flow (RunState Public Extra) Choice
  unfolding replace_illegal give_up
  refused fallback player action markers s =
      replace_illegal player markers s (failure_action s.state player)
  refused policy player action markers s =
      halt (give_up s player policy action (of_player player "illegal_action" markers))

  -- Phase 3: the action must be legal.
  legality_phase :
      RunConfig → Player → RunState Public Extra × Choice → Flow (RunState Public Extra) Choice
  unfolding refused
  legality_phase config player (s, choice) =
      if allowed s player choice.action
      then go_on s choice
      else refused config.on_illegal_action player choice.action
          (choice.markers ++ "illegal_action" ∷ "action_not_legal" ∷ [])
          (record s {
            illegal_actions = bump s.illegal_actions player;
            reason_codes = add_code "action_not_legal" s.reason_codes;
          })

  -- `except Exception` around `apply_action`.
  apply_failed : RunState Public Extra → Player → List String → RunState Public Extra
  apply_failed s player markers =
      let reason = of_player player "arena_apply_error" (markers ++ "arena_apply_error" ∷ []) in
      record s {
        valid_for_scoring = false;
        invalid_reason = some reason;
        reason_codes = s.reason_codes ++ "arena_apply_error" ∷ [];
        errors = s.errors ++ record { turn_id = s.state.turn; reason = none } ∷ [];
      }

  abbrev applied : ArenaState Public Extra → Player → Option Json → Option (ArenaState Public Extra)
  applied s player none = none
  applied s player (some action) = rules.apply_action s player action

  -- What `apply_action` returned, or that it raised.
  conclude :
      Player
      → RunState Public Extra
      → Choice
      → Option (ArenaState Public Extra)
      → Flow (RunState Public Extra) (Unit {0})
  unfolding record_move apply_failed
  conclude player s choice none = halt (apply_failed s player choice.markers)
  conclude player s choice (some next) = go_on (record_move s player choice.action false next) tt

  -- Phase 4: the arena applies the action.
  apply_phase :
      Player → Flow (RunState Public Extra) Choice → Flow (RunState Public Extra) (Unit {0})
  unfolding conclude
  apply_phase player (halt s) = halt s
  apply_phase player (go_on s choice) =
      conclude player s choice (applied s.state player choice.action)

  after_agent :
      RunConfig
      → Player
      → Bool
      → Response
      → List String
      → Flow (RunState Public Extra) (Unit {0})
      → Flow (RunState Public Extra) (Unit {0})
  unfolding choose legality_phase apply_phase
  after_agent config player backed response markers (halt s) = halt s
  after_agent config player backed response markers (go_on s _) =
      apply_phase player
        (legality_phase config player (choose player backed response.action markers s))
