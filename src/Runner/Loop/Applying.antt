-- ===== src/Runner/Loop/Applying.antt =====
-- Over an arena that keeps its contract the handler around `apply_action` is never reached: every
-- state of a run is one that legal play reaches, and a legal action applies there.
use e_slams.Prelude.{
  All, All-append, Bool, Bool-cases, Ends, Flow, List, Option, String, go_on, halt, inl, inr, leb,
  map-some, none, not, refl, some, subst, true, while_flow_inv, ℕ, ◌&&◌, ◌≡◌,
}
use e_slams.Json.{Json}
use e_slams.Arena.{ArenaState, InvalidReason, Player, failure_action, of_player}
use e_slams.Arena.Contract.{IsArena, Reachable, Rules, opened, played}
use e_slams.Runner.{
  after_agent, agent_phase, allowed, applied, apply_phase, choose, conclude, give_up, invalidate,
  legality_phase, note_fallback, record_move, refused, replace_illegal, substituted, under_policy,
}
use e_slams.Runner.State.{Choice, ErrorRow, FailurePolicy, RunConfig, RunState, fallback, forfeit}
use e_slams.Runner.Loop.{
  answered, begin, count_action, loop, play_turn, run, running, truncate, turn_limit,
}
use e_slams.Runner.Calls.{Call, Response, call_agent, failure_class_from_response, has_agent_error}
use e_slams.Prelude.Int.{ℤ}

-- The row of `arena_apply_error` is the one row without a reason.
abbrev pub HasReason : ErrorRow → Type 0
HasReason row = (reason : InvalidReason) × (row.reason ≡ some reason)

module _ {Public Extra : Type 0} (rules : Rules Public Extra)
    (state_hash : ArenaState Public Extra → String) where
  abbrev Explained : RunState Public Extra → Type 0
  Explained s = All HasReason s.errors

  abbrev OnCourse : RunState Public Extra → Type 0
  OnCourse s = Explained s × Reachable rules s.state

  abbrev Cleared : Player → Flow (RunState Public Extra) Choice → Type 0
  Cleared player (halt s) = Explained s
  Cleared player (go_on s choice) =
      OnCourse s × (allowed rules state_hash s player choice.action ≡ true)

  invalidate-Explained :
      (s : RunState Public Extra) (reason : InvalidReason)
      → Explained s
      → Explained (invalidate rules state_hash s reason)
  unfolding invalidate
  invalidate-Explained s reason h = All-append HasReason s.errors _ h ((reason, refl), tt)

  give_up-Explained :
      (s : RunState Public Extra) (player : Player) (policy : FailurePolicy) (action : Option Json)
      (reason : InvalidReason)
      → Explained s
      → Explained (give_up rules state_hash s player policy action reason)
  unfolding give_up record_move
  give_up-Explained s player forfeit action reason h = invalidate-Explained s reason h
  give_up-Explained s player _ action reason h = invalidate-Explained s reason h

  under_policy-OnCourse :
      (policy : FailurePolicy) (s : RunState Public Extra) (player : Player) (action : Option Json)
      (reason : InvalidReason)
      → OnCourse s
      → Ends Explained OnCourse (under_policy rules state_hash policy s player action reason)
  unfolding under_policy
  under_policy-OnCourse fallback s player action reason o = o
  under_policy-OnCourse policy s player action reason (h, _) =
      give_up-Explained s player policy action reason h

  agent_phase-OnCourse :
      (config : RunConfig) (player : Player) (response : Response) (markers : List String)
      (s : RunState Public Extra)
      → OnCourse s
      → Ends Explained OnCourse (agent_phase rules state_hash config player response markers s)
  unfolding agent_phase
  agent_phase-OnCourse config player response markers s o =
      elim (Bool-cases (has_agent_error markers)) [
        | inr e ↦ rw e o
        | inl e ↦ rw e (
            under_policy-OnCourse _ _ player response.action
              (of_player player (failure_class_from_response response markers) markers) o)
      ]

  substituted-OnCourse :
      (player : Player) (backed : Bool) (action : Option Json) (markers : List String)
      (s : RunState Public Extra)
      → OnCourse s
      → OnCourse (substituted rules state_hash player backed action markers s).0
  unfolding substituted note_fallback
  substituted-OnCourse player backed none markers s o = o
  substituted-OnCourse player backed (some action) markers s o = o

  choose-OnCourse :
      (player : Player) (backed : Bool) (action : Option Json) (markers : List String)
      (s : RunState Public Extra)
      → OnCourse s
      → OnCourse (choose rules state_hash player backed action markers s).0
  unfolding choose
  choose-OnCourse player backed (some action) markers s o = o
  choose-OnCourse player backed none markers s o =
      substituted-OnCourse player backed (failure_action s.state player) markers s o

  replace_illegal-Cleared :
      (player : Player) (markers : List String) (s : RunState Public Extra) (action : Option Json)
      → OnCourse s
      → Cleared player (replace_illegal rules state_hash player markers s action)
  unfolding replace_illegal note_fallback
  replace_illegal-Cleared player markers s none (h, r) =
      invalidate-Explained s (of_player player "illegal_action_no_fallback" markers) h
  replace_illegal-Cleared player markers s (some a) (h, r) =
      elim (Bool-cases (allowed rules state_hash s player (some a))) [
        | inl e ↦ rw e ((h, r), e)
        | inr e ↦
            rw e (invalidate-Explained s (of_player player "illegal_action_no_fallback" markers) h)
      ]

  refused-Cleared :
      (policy : FailurePolicy) (player : Player) (action : Option Json) (markers : List String)
      (s : RunState Public Extra)
      → OnCourse s
      → Cleared player (refused rules state_hash policy player action markers s)
  unfolding refused
  refused-Cleared fallback player action markers s o =
      replace_illegal-Cleared player markers s (failure_action s.state player) o
  refused-Cleared policy player action markers s (h, _) =
      give_up-Explained s player policy action (of_player player "illegal_action" markers) h

  legality_phase-Cleared :
      (config : RunConfig) (player : Player) (r : RunState Public Extra × Choice)
      → OnCourse r.0
      → Cleared player (legality_phase rules state_hash config player r)
  unfolding legality_phase
  legality_phase-Cleared config player (s, choice) o =
      elim (Bool-cases (allowed rules state_hash s player choice.action)) [
        | inl e ↦ rw e (o, e)
        | inr e ↦ rw e (refused-Cleared config.on_illegal_action player choice.action _ _ o)
      ]

  -- A legal action applies, so the call comes back with a state, which legal play reaches.
  conclude-OnCourse :
      IsArena rules
      → (player : Player) (s : RunState Public Extra) (choice : Choice) (action : Option Json)
        (r : Option (ArenaState Public Extra))
      → OnCourse s
      → allowed rules state_hash s player action ≡ true
      → applied rules state_hash s.state player action ≡ r
      → Ends Explained OnCourse (conclude rules state_hash player s choice r)
  unfolding conclude record_move
  conclude-OnCourse arena player s choice none r o e q = cc
  conclude-OnCourse arena player s choice (some a) none (h, r) e q =
      absurd (arena.legal_applies s.state player a r e q)
  conclude-OnCourse arena player s choice (some a) (some next) (h, r) e q = (h, played r player a q)

  apply_phase-OnCourse :
      IsArena rules
      → (player : Player) (f : Flow (RunState Public Extra) Choice) → Cleared player f
      → Ends Explained OnCourse (apply_phase rules state_hash player f)
  unfolding apply_phase
  apply_phase-OnCourse arena player (halt s) c = c
  apply_phase-OnCourse arena player (go_on s choice) (o, e) =
      conclude-OnCourse arena player s choice choice.action _ o e refl

  after_agent-OnCourse :
      IsArena rules
      → (config : RunConfig) (player : Player) (backed : Bool) (response : Response)
        (markers : List String) (f : Flow (RunState Public Extra) (Unit {0}))
      → Ends Explained OnCourse f
      → Ends Explained OnCourse
          (after_agent rules state_hash config player backed response markers f)
  unfolding after_agent
  after_agent-OnCourse arena config player backed response markers (halt s) h = h
  after_agent-OnCourse arena config player backed response markers (go_on s _) o =
      apply_phase-OnCourse arena player _ (
        legality_phase-Cleared config player
          (choose rules state_hash player backed response.action markers s)
          (choose-OnCourse player backed response.action markers s o))

  module _ (arena : IsArena rules) (config : RunConfig) (backed : Player → Bool)
      (agents : Player → ArenaState Public Extra → Call) where
    play_turn-OnCourse :
        (s : RunState Public Extra)
        → OnCourse s
        → Ends Explained OnCourse (play_turn rules state_hash config backed agents s)
    unfolding play_turn answered
    play_turn-OnCourse s o =
        let player = s.state.active_player in
        let (response, markers) = call_agent config.time_budget_ms (agents player s.state) in
        after_agent-OnCourse arena config player (backed player) response markers _
          (agent_phase-OnCourse config player response markers (count_action rules state_hash s) o)

    loop-Explained :
        (fuel : ℕ) (s t : RunState Public Extra)
        → OnCourse s
        → loop rules state_hash config backed agents fuel s ≡ some t
        → Explained t
    unfolding loop
    loop-Explained fuel s t o h =
        let ended =
          while_flow_inv OnCourse Explained (running rules state_hash config backed agents)
            (play_turn rules state_hash config backed agents) (λ u a _. play_turn-OnCourse u a) fuel
            s t o h in
        elim ended [ inl a ↦ a | inr (a, _) ↦ a.0 ]

    truncate-Explained :
        (s : RunState Public Extra)
        → Explained s
        → Explained (truncate rules state_hash config backed agents s)
    unfolding truncate
    truncate-Explained s h =
        elim (Bool-cases (
          not s.state.terminal
          && leb (turn_limit rules state_hash config backed agents) s.state.turn)) [
            | inl e ↦ rw e h
            | inr e ↦ rw e h
          ]

    -- Over an arena that keeps its contract, no finished run has an error row without a reason,
    -- the row that only an exception of the arena's `apply_action` leaves: whatever the agents
    -- answer, the arena applies each action that the runner hands to it.
    pub run-applies :
        (seed : ℤ) (s : RunState Public Extra)
        → run rules state_hash config backed agents seed ≡ some s
        → All HasReason s.errors
    unfolding run
    run-applies seed s h =
        let (t, e, q) = map-some _ (loop rules state_hash config backed agents _ _) h in
        let start = begin rules state_hash config backed agents seed in
        subst Explained q (truncate-Explained t (loop-Explained _ start t (tt, opened seed) e))
