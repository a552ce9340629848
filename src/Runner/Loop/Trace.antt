-- ===== src/Runner/Loop/Trace.antt =====
-- The trace of a run is a chain of legal moves, ended at most by a forfeit, and the replay is its
-- projection, with each entry carrying the hash of the state before it.
use mathlib.Core.List.{map-append}
use e_slams.Prelude.{
  Bool, Bool-cases, Ends, Flow, List, Option, String, [], arith, false, go_on, halt, if◌then◌else◌,
  inl, inr, leb, map, map-some, none, not, refl, some, subst, sym, true, while_flow_inv, ℕ, ◌&&◌,
  ◌++◌, ◌∙◌, ◌∷◌, ◌≡◌,
}
use e_slams.Json.{Json}
use e_slams.Arena.{ArenaState, InvalidReason, Player, failure_action, is_legal, of_player}
use e_slams.Arena.Contract.{Rules, public_action}
use e_slams.Runner.{
  after_agent, agent_phase, allowed, applied, apply_failed, apply_phase, choose, conclude,
  forfeit_state, give_up, invalidate, legality_phase, note_fallback, record_move, refused,
  replace_illegal, substituted, under_policy,
}
use e_slams.Runner.State.{
  Choice, FailurePolicy, ReplayEvent, RunConfig, RunState, TraceEvent, fallback, forfeit,
}
use e_slams.Runner.Loop.{
  answered, begin, count_action, loop, play_turn, run, running, truncate, turn_limit,
}
use e_slams.Runner.Calls.{Call, Response, call_agent, failure_class_from_response, has_agent_error}
use e_slams.Prelude.Int.{ℤ}

module _ {Public Extra : Type 0} (rules : Rules Public Extra)
    (state_hash : ArenaState Public Extra → String) where
  -- A move of the seat to move: a legal action that the arena applied, or a forfeit.
  abbrev pub IsMove : TraceEvent Public Extra → Type 0
  IsMove e =
      (e.player ≡ e.before.active_player)
      × (e.before.terminal ≡ false)
      × (if e.is_forfeit
          then ((reason : InvalidReason) × (e.after ≡ forfeit_state e.before e.player reason))
          else ((a : Json) × (e.action ≡ some a)
              × (is_legal e.before e.player a ≡ true)
              × (rules.apply_action e.before e.player a ≡ some e.after)))

  -- The events lead from one state to another, each from where the one before it ended.
  abbrev pub Linked :
      ArenaState Public Extra → List (TraceEvent Public Extra) → ArenaState Public Extra → Type 0
  Linked a [] b = a ≡ b
  Linked a (e ∷ es) b = (e.before ≡ a) × IsMove e × Linked e.after es b

  Linked-snoc :
      (a b : ArenaState Public Extra) (es : List (TraceEvent Public Extra))
      (e : TraceEvent Public Extra)
      → Linked a es b
      → e.before ≡ b
      → IsMove e
      → Linked a (es ++ e ∷ []) e.after
  Linked-snoc a b [] e l h m = (h ∙ sym l, m, refl)
  Linked-snoc a b (x ∷ es) e (p, q, l) h m = (p, q, Linked-snoc x.after b es e l h m)

  abbrev pub replay_of : TraceEvent Public Extra → ReplayEvent Public Extra
  replay_of e = record {
    state = e.after;
    action = public_action rules e.after e.action;
    hash_before = some (state_hash e.before);
  }

  abbrev pub first_replay : ArenaState Public Extra → ReplayEvent Public Extra
  first_replay s = record { state = s; action = none; hash_before = none }

  pub record IsRecorded (origin : ArenaState Public Extra) (s : RunState Public Extra)
      : Type 0 where
    pub linked : Linked origin s.trace_events s.state
    pub replayed : s.replay_events ≡ first_replay origin ∷ map replay_of s.trace_events

  record_move-IsRecorded :
      (origin : ArenaState Public Extra) (s : RunState Public Extra) (player : Player)
      (action : Option Json) (gave_up : Bool) (next : ArenaState Public Extra)
      → IsRecorded origin s
      → IsMove (record {
        before = s.state;
        after = next;
        player = player;
        action = action;
        is_forfeit = gave_up;
      })
      → IsRecorded origin (record_move rules state_hash s player action gave_up next)
  unfolding record_move
  record_move-IsRecorded origin s player action gave_up next r m = record {
    linked = Linked-snoc origin s.state s.trace_events _ r.linked refl m;
    replayed = rw (r.replayed, map-append) refl;
  }

  -- Within a turn: the record is complete, and the seat to move has not moved yet.
  record IsOpen (origin : ArenaState Public Extra) (player : Player) (s : RunState Public Extra)
      : Type 0 where
    recorded : IsRecorded origin s
    to_move : player ≡ s.state.active_player
    going : s.state.terminal ≡ false

  -- The counts, the reasons and the errors have no part in the record.
  reopen :
      {origin : ArenaState Public Extra} {player : Player} (s t : RunState Public Extra)
      → t.state ≡ s.state
      → t.trace_events ≡ s.trace_events
      → t.replay_events ≡ s.replay_events
      → IsOpen origin player s
      → IsOpen origin player t
  reopen {origin} {player} s t p q r o = record {
    recorded = record {
      linked = rw (p, q) o.recorded.linked;
      replayed = rw (q, r) o.recorded.replayed;
    };
    to_move = rw p o.to_move;
    going = rw p o.going;
  }

  module _ (origin : ArenaState Public Extra) (player : Player) where
    give_up-IsRecorded :
        (s : RunState Public Extra) (policy : FailurePolicy) (action : Option Json)
        (reason : InvalidReason)
        → IsOpen origin player s
        → IsRecorded origin (give_up rules state_hash s player policy action reason)
    unfolding give_up
    give_up-IsRecorded s forfeit action reason o =
        let o' = reopen s (invalidate rules state_hash s reason) refl refl refl o in
        record_move-IsRecorded origin (invalidate rules state_hash s reason) player action true _
          o'.recorded (o'.to_move, o'.going, (reason, refl))
    give_up-IsRecorded s _ action reason o =
        (reopen s (invalidate rules state_hash s reason) refl refl refl o).recorded

    under_policy-Open :
        (policy : FailurePolicy) (s : RunState Public Extra) (action : Option Json)
        (reason : InvalidReason)
        → IsOpen origin player s
        → Ends
            (IsRecorded origin)
            (IsOpen origin player)
            (under_policy rules state_hash policy s player action reason)
    unfolding under_policy
    under_policy-Open fallback s action reason o = o
    under_policy-Open policy s action reason o = give_up-IsRecorded s policy action reason o

    agent_phase-Open :
        (config : RunConfig) (response : Response) (markers : List String)
        (s : RunState Public Extra)
        → IsOpen origin player s
        → Ends
            (IsRecorded origin)
            (IsOpen origin player)
            (agent_phase rules state_hash config player response markers s)
    unfolding agent_phase
    agent_phase-Open config response markers s o = elim (Bool-cases (has_agent_error markers)) [
      | inr e ↦ rw e o
      | inl e ↦ rw e (
          under_policy-Open _ _ response.action
            (of_player player (failure_class_from_response response markers) markers)
            (reopen s _ refl refl refl o))
    ]

    substituted-Open :
        (backed : Bool) (action : Option Json) (markers : List String) (s : RunState Public Extra)
        → IsOpen origin player s
        → IsOpen origin player (substituted rules state_hash player backed action markers s).0
    unfolding substituted
    substituted-Open backed none markers s o = o
    substituted-Open backed (some action) markers s o = reopen s _ refl refl refl o

    choose-Open :
        (backed : Bool) (action : Option Json) (markers : List String) (s : RunState Public Extra)
        → IsOpen origin player s
        → IsOpen origin player (choose rules state_hash player backed action markers s).0
    unfolding choose
    choose-Open backed (some action) markers s o = o
    choose-Open backed none markers s o =
        substituted-Open backed (failure_action s.state player) markers s o

    -- Past phase 3 the action is legal.
    abbrev Cleared : Flow (RunState Public Extra) Choice → Type 0
    Cleared (halt s) = IsRecorded origin s
    Cleared (go_on s choice) =
        IsOpen origin player s × (allowed rules state_hash s player choice.action ≡ true)

    allowed-state :
        (s t : RunState Public Extra) (action : Option Json)
        → t.state ≡ s.state
        → allowed rules state_hash s player action ≡ true
        → allowed rules state_hash t player action ≡ true
    allowed-state s t none p e = e
    allowed-state s t (some a) p e = rw p e

    replace_illegal-Cleared :
        (markers : List String) (s : RunState Public Extra) (action : Option Json)
        → IsOpen origin player s
        → Cleared (replace_illegal rules state_hash player markers s action)
    unfolding replace_illegal note_fallback
    replace_illegal-Cleared markers s action o =
        elim (Bool-cases (allowed rules state_hash s player action)) [
          | inl e ↦ rw e (
            reopen s (note_fallback rules state_hash s player (markers ++ "fallback_action" ∷ []))
                refl refl refl o,
            allowed-state s
                (note_fallback rules state_hash s player (markers ++ "fallback_action" ∷ [])) action
                refl e,
          )
          | inr e ↦
              rw e
                (reopen s
                  (invalidate rules state_hash s
                    (of_player player "illegal_action_no_fallback" markers))
                  refl refl refl o).recorded
        ]

    refused-Cleared :
        (policy : FailurePolicy) (action : Option Json) (markers : List String)
        (s : RunState Public Extra)
        → IsOpen origin player s
        → Cleared (refused rules state_hash policy player action markers s)
    unfolding refused
    refused-Cleared fallback action markers s o =
        replace_illegal-Cleared markers s (failure_action s.state player) o
    refused-Cleared policy action markers s o =
        give_up-IsRecorded s policy action (of_player player "illegal_action" markers) o

    legality_phase-Cleared :
        (config : RunConfig) (r : RunState Public Extra × Choice)
        → IsOpen origin player r.0
        → Cleared (legality_phase rules state_hash config player r)
    unfolding legality_phase
    legality_phase-Cleared config (s, choice) o =
        elim (Bool-cases (allowed rules state_hash s player choice.action)) [
          | inl e ↦ rw e (o, e)
          | inr e ↦ rw e (
              refused-Cleared config.on_illegal_action choice.action _ _
                (reopen s _ refl refl refl o))
        ]

    -- The move that a legal action makes.
    legal-IsMove :
        (s : RunState Public Extra) (action : Option Json) (next : ArenaState Public Extra)
        → IsOpen origin player s
        → allowed rules state_hash s player action ≡ true
        → applied rules state_hash s.state player action ≡ some next
        → IsMove (record {
          before = s.state;
          after = next;
          player = player;
          action = action;
          is_forfeit = false;
        })
    legal-IsMove s none next o e h = cc
    legal-IsMove s (some a) next o e h = (o.to_move, o.going, (a, refl, e, h))

    conclude-IsRecorded :
        (s : RunState Public Extra) (choice : Choice) (r : Option (ArenaState Public Extra))
        → IsOpen origin player s
        → allowed rules state_hash s player choice.action ≡ true
        → applied rules state_hash s.state player choice.action ≡ r
        → Ends (IsRecorded origin) (IsRecorded origin) (conclude rules state_hash player s choice r)
    unfolding conclude
    conclude-IsRecorded s choice none o e h =
        (reopen s (apply_failed rules state_hash s player choice.markers) refl refl refl o).recorded
    conclude-IsRecorded s choice (some next) o e h =
        record_move-IsRecorded origin s player choice.action false next o.recorded
          (legal-IsMove s choice.action next o e h)

    apply_phase-IsRecorded :
        (f : Flow (RunState Public Extra) Choice)
        → Cleared f
        → Ends (IsRecorded origin) (IsRecorded origin) (apply_phase rules state_hash player f)
    unfolding apply_phase
    apply_phase-IsRecorded (halt s) c = c
    apply_phase-IsRecorded (go_on s choice) (o, e) =
        conclude-IsRecorded s choice (applied rules state_hash s.state player choice.action) o e
          refl

    after_agent-IsRecorded :
        (config : RunConfig) (backed : Bool) (response : Response) (markers : List String)
        (f : Flow (RunState Public Extra) (Unit {0}))
        → Ends (IsRecorded origin) (IsOpen origin player) f
        → Ends
            (IsRecorded origin)
            (IsRecorded origin)
            (after_agent rules state_hash config player backed response markers f)
    unfolding after_agent
    after_agent-IsRecorded config backed response markers (halt s) r = r
    after_agent-IsRecorded config backed response markers (go_on s _) o = apply_phase-IsRecorded _ (
        legality_phase-Cleared config
          (choose rules state_hash player backed response.action markers s)
          (choose-Open backed response.action markers s o))

  module _ (config : RunConfig) (backed : Player → Bool)
      (agents : Player → ArenaState Public Extra → Call) where
    play_turn-IsRecorded :
        (origin : ArenaState Public Extra) (s : RunState Public Extra)
        → IsRecorded origin s
        → running rules state_hash config backed agents s ≡ true
        → Ends
            (IsRecorded origin)
            (IsRecorded origin)
            (play_turn rules state_hash config backed agents s)
    unfolding play_turn answered
    play_turn-IsRecorded origin s r e =
        let player = s.state.active_player in
        let (response, markers) = call_agent config.time_budget_ms (agents player s.state) in
        let going : s.state.terminal ≡ false = ground arith in
        after_agent-IsRecorded origin player config (backed player) response markers _ (
          agent_phase-Open origin player config response markers (count_action rules state_hash s)
            (reopen s _ refl refl refl (record { recorded = r; to_move = refl; going = going })))

    loop-IsRecorded :
        (origin : ArenaState Public Extra) (fuel : ℕ) (s t : RunState Public Extra)
        → IsRecorded origin s
        → loop rules state_hash config backed agents fuel s ≡ some t
        → IsRecorded origin t
    unfolding loop
    loop-IsRecorded origin fuel s t r h =
        let ended =
          while_flow_inv (IsRecorded origin) (IsRecorded origin)
            (running rules state_hash config backed agents)
            (play_turn rules state_hash config backed agents)
            (λ u a e. play_turn-IsRecorded origin u a e) fuel s t r h in
        elim ended [ inl a ↦ a | inr (a, _) ↦ a ]

    truncate-IsRecorded :
        (origin : ArenaState Public Extra) (s : RunState Public Extra)
        → IsRecorded origin s
        → IsRecorded origin (truncate rules state_hash config backed agents s)
    unfolding truncate
    truncate-IsRecorded origin s r =
        elim (Bool-cases (
          not s.state.terminal
          && leb (turn_limit rules state_hash config backed agents) s.state.turn)) [
            | inl e ↦ rw e (record { linked = r.linked; replayed = r.replayed })
            | inr e ↦ rw e r
          ]

    -- The trace of every run leads from the arena's initial state to the final state by moves of
    -- the seat to move, each a legal action that the arena applied or a forfeit, and the replay
    -- is the initial state and then one entry for each event, with the hash of the state before and
    -- the action as the arena makes it public.
    pub run-IsRecorded :
        (seed : ℤ) (s : RunState Public Extra)
        → run rules state_hash config backed agents seed ≡ some s
        → Linked (rules.initial_state seed) s.trace_events s.state
          × (s.replay_events
              ≡ first_replay (rules.initial_state seed) ∷ map replay_of s.trace_events)
    unfolding run loop
    run-IsRecorded seed s h =
        let (t, e, q) = map-some _ (loop rules state_hash config backed agents _ _) h in
        let origin = rules.initial_state seed in
        let r : IsRecorded origin s = subst (IsRecorded origin) q (
          truncate-IsRecorded origin t (
            loop-IsRecorded origin _ (begin rules state_hash config backed agents seed) t
              (record { linked = refl; replayed = refl }) e)) in
        (r.linked, r.replayed)
