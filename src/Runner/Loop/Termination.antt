-- ===== src/Runner/Loop/Termination.antt =====
-- Every run ends within the turn limit: a turn that goes on moves the game on by one turn, and a
-- turn that breaks off moves it on by at most one.
use e_slams.Prelude.{
  &&_split, Bool, Bool-cases, Ends, Flow, List, Option, String, [], arith, go_on, halt, inl, inr,
  length, ltb→lt, none, refl, some, true, while_flow_inv, while_flow_total, ℕ, ◌+◌, ◌-◌, ◌<◌, ◌∙◌,
  ◌∷◌, ◌≡◌, ◌≤◌,
}
use e_slams.Json.{Json}
use e_slams.Arena.{ArenaState, InvalidReason, Player, failure_action, is_legal, of_player}
use e_slams.Arena.Contract.{IsArena, Rules}
use e_slams.Runner.{
  after_agent, agent_phase, allowed, applied, apply_failed, apply_phase, choose, conclude,
  forfeit_state, give_up, invalidate, legality_phase, note_fallback, record_move, refused,
  replace_illegal, substituted, under_policy,
}
use e_slams.Runner.State.{
  Choice, FailurePolicy, RunConfig, RunState, TraceEvent, fallback, forfeit, invalid_match,
}
use e_slams.Runner.Loop.{
  answered, begin, count_action, loop, play_turn, run, running, truncate, turn_limit,
}
use e_slams.Runner.Loop.Validity.{state-truncate}
use e_slams.Runner.Loop.Trace.{IsMove, Linked, run-IsRecorded}
use e_slams.Runner.Calls.{Call, Response, call_agent, failure_class_from_response, has_agent_error}
use e_slams.Prelude.Int.{ℤ}

module _ {Public Extra : Type 0} (rules : Rules Public Extra)
    (state_hash : ArenaState Public Extra → String) where
  module _ (s : RunState Public Extra) where
    -- Within a turn: a break moves at most one turn on, and the state is as it was.
    abbrev Waits : {A : Type 0} → Flow (RunState Public Extra) A → Type 0
    Waits f = Ends (λ t. t.state.turn ≤ s.state.turn + 1) (λ t. t.state ≡ s.state) f

    abbrev Advances : Flow (RunState Public Extra) (Unit {0}) → Type 0
    Advances f =
        Ends (λ t. t.state.turn ≤ s.state.turn + 1) (λ t. t.state.turn ≡ s.state.turn + 1) f

    give_up_turn :
        (t : RunState Public Extra) (player : Player) (policy : FailurePolicy)
        (action : Option Json) (reason : InvalidReason)
        → t.state ≡ s.state
        → (give_up rules state_hash t player policy action reason).state.turn ≤ s.state.turn + 1
    unfolding give_up record_move invalidate forfeit_state
    give_up_turn t player forfeit action reason p = rw p (omega arith)
    give_up_turn t player invalid_match action reason p = rw p (omega arith)
    give_up_turn t player fallback action reason p = rw p (omega arith)

    under_policy-Waits :
        (policy : FailurePolicy) (t : RunState Public Extra) (player : Player)
        (action : Option Json) (reason : InvalidReason)
        → t.state ≡ s.state
        → Waits (under_policy rules state_hash policy t player action reason)
    unfolding under_policy
    under_policy-Waits fallback t player action reason p = p
    under_policy-Waits policy t player action reason p =
        give_up_turn t player policy action reason p

    agent_phase-Waits :
        (config : RunConfig) (player : Player) (response : Response) (markers : List String)
        (t : RunState Public Extra)
        → t.state ≡ s.state
        → Waits (agent_phase rules state_hash config player response markers t)
    unfolding agent_phase
    agent_phase-Waits config player response markers t p =
        elim (Bool-cases (has_agent_error markers)) [
          | inr e ↦ rw e p
          | inl e ↦ rw e (
              under_policy-Waits _ _ player response.action
                (of_player player (failure_class_from_response response markers) markers) p)
        ]

    substituted_state :
        (player : Player) (backed : Bool) (action : Option Json) (markers : List String)
        (t : RunState Public Extra)
        → (substituted rules state_hash player backed action markers t).0.state ≡ t.state
    unfolding substituted note_fallback
    substituted_state player backed none markers t = refl
    substituted_state player backed (some action) markers t = refl

    choose_state :
        (player : Player) (backed : Bool) (action : Option Json) (markers : List String)
        (t : RunState Public Extra)
        → (choose rules state_hash player backed action markers t).0.state ≡ t.state
    unfolding choose
    choose_state player backed (some action) markers t = refl
    choose_state player backed none markers t =
        substituted_state player backed (failure_action t.state player) markers t

    replace_illegal-Waits :
        (player : Player) (markers : List String) (t : RunState Public Extra) (action : Option Json)
        → t.state ≡ s.state
        → Waits (replace_illegal rules state_hash player markers t action)
    unfolding replace_illegal note_fallback invalidate
    replace_illegal-Waits player markers t action p =
        elim (Bool-cases (allowed rules state_hash t player action)) [
          | inl e ↦ rw e p
          | inr e ↦ rw (e, p) (omega arith)
        ]

    refused-Waits :
        (policy : FailurePolicy) (player : Player) (action : Option Json) (markers : List String)
        (t : RunState Public Extra)
        → t.state ≡ s.state
        → Waits (refused rules state_hash policy player action markers t)
    unfolding refused
    refused-Waits fallback player action markers t p =
        replace_illegal-Waits player markers t (failure_action t.state player) p
    refused-Waits policy player action markers t p =
        give_up_turn t player policy action (of_player player "illegal_action" markers) p

    legality_phase-Waits :
        (config : RunConfig) (player : Player) (r : RunState Public Extra × Choice)
        → r.0.state ≡ s.state
        → Waits (legality_phase rules state_hash config player r)
    unfolding legality_phase
    legality_phase-Waits config player (t, choice) p =
        elim (Bool-cases (allowed rules state_hash t player choice.action)) [
          | inl e ↦ rw e p
          | inr e ↦ rw e (refused-Waits config.on_illegal_action player choice.action _ _ p)
        ]

    module _ (arena : IsArena rules) where
      applied_turn :
          (player : Player) (action : Option Json) (a b : ArenaState Public Extra)
          → applied rules state_hash a player action ≡ some b
          → b.turn ≡ a.turn + 1
      applied_turn player none a b h = cc
      applied_turn player (some action) a b h = arena.next_turn a b player action h

      conclude-Advances :
          (player : Player) (t : RunState Public Extra) (choice : Choice)
          (r : Option (ArenaState Public Extra))
          → t.state ≡ s.state
          → applied rules state_hash t.state player choice.action ≡ r
          → Advances (conclude rules state_hash player t choice r)
      unfolding conclude record_move apply_failed
      conclude-Advances player t choice none p h = rw p (omega arith)
      conclude-Advances player t choice (some next) p h =
          rw (← p) (applied_turn player choice.action t.state next h)

      apply_phase-Advances :
          (player : Player) (f : Flow (RunState Public Extra) Choice)
          → Waits f
          → Advances (apply_phase rules state_hash player f)
      unfolding apply_phase
      apply_phase-Advances player (halt t) w = w
      apply_phase-Advances player (go_on t choice) w =
          conclude-Advances player t choice (applied rules state_hash t.state player choice.action)
            w refl

      after_agent-Advances :
          (config : RunConfig) (player : Player) (backed : Bool) (response : Response)
          (markers : List String) (f : Flow (RunState Public Extra) (Unit {0}))
          → Waits f
          → Advances (after_agent rules state_hash config player backed response markers f)
      unfolding after_agent
      after_agent-Advances config player backed response markers (halt t) w = w
      after_agent-Advances config player backed response markers (go_on t _) w =
          apply_phase-Advances player _ (
            legality_phase-Waits config player _
              (choose_state player backed response.action markers t ∙ w))

  module _ (arena : IsArena rules) (config : RunConfig) (backed : Player → Bool)
      (agents : Player → ArenaState Public Extra → Call) where
    play_turn-Advances :
        (s : RunState Public Extra) → Advances s (play_turn rules state_hash config backed agents s)
    unfolding play_turn answered
    play_turn-Advances s =
        let player = s.state.active_player in
        let (response, markers) = call_agent config.time_budget_ms (agents player s.state) in
        after_agent-Advances s arena config player (backed player) response markers _ (
          agent_phase-Waits s config player response markers (count_action rules state_hash s) refl)

    abbrev limit : ℕ
    limit = turn_limit rules state_hash config backed agents

    running_lt :
        (s : RunState Public Extra)
        → running rules state_hash config backed agents s ≡ true
        → s.state.turn < limit
    running_lt s e = ltb→lt s.state.turn limit (&&_split _ _ e).1

    go_on_turn :
        (s u : RunState Public Extra) (a : Unit {0})
        → play_turn rules state_hash config backed agents s ≡ go_on u a
        → u.state.turn ≡ s.state.turn + 1
    go_on_turn s u a b = rw b at (play_turn-Advances s)

    Advances-le :
        (s : RunState Public Extra) (f : Flow (RunState Public Extra) (Unit {0}))
        → s.state.turn < limit
        → Advances s f
        → Ends (λ u. u.state.turn ≤ limit) (λ u. u.state.turn ≤ limit) f
    Advances-le s (halt t) lt w = omega arith
    Advances-le s (go_on t _) lt w = omega arith

    -- With the turns that are left as fuel, the loop ends.
    loop_total :
        (fuel : ℕ) (s : RunState Public Extra)
        → s.state.turn ≤ limit
        → (limit - s.state.turn) ≤ fuel
        → (t : RunState Public Extra) × (loop rules state_hash config backed agents fuel s ≡ some t)
    unfolding loop
    loop_total fuel s p m =
        while_flow_total (λ t. t.state.turn ≤ limit) (λ t. limit - t.state.turn)
          (running rules state_hash config backed agents)
          (play_turn rules state_hash config backed agents)
          (λ u v a q e b.
            let lt = running_lt u e in
            let k = go_on_turn u v a b in (rw k (omega arith), rw k (omega arith)))
          (λ u q e. let lt = running_lt u e in omega arith) fuel s p m

    loop_bound :
        (fuel : ℕ) (s t : RunState Public Extra)
        → s.state.turn ≤ limit
        → loop rules state_hash config backed agents fuel s ≡ some t
        → t.state.turn ≤ limit
    unfolding loop
    loop_bound fuel s t p h =
        let ended =
          while_flow_inv (λ u. u.state.turn ≤ limit) (λ u. u.state.turn ≤ limit)
            (running rules state_hash config backed agents)
            (play_turn rules state_hash config backed agents)
            (λ u a e. Advances-le u _ (running_lt u e) (play_turn-Advances u)) fuel s t p h in
        elim ended [ inl a ↦ a | inr (a, _) ↦ a ]

    move_turn :
        (e : TraceEvent Public Extra) → IsMove rules state_hash e → e.after.turn ≡ e.before.turn + 1
    unfolding forfeit_state
    move_turn e (_, _, m) = elim (Bool-cases e.is_forfeit) [
      | inl f ↦
          let (reason, q) : (reason : InvalidReason) × (e.after
                ≡ forfeit_state e.before e.player reason) =
            rw f at m in
          rw q refl
      | inr f ↦
          let (a, _, _, k) : (a : Json) × (e.action ≡ some a)
              × (is_legal e.before e.player a ≡ true)
              × (rules.apply_action e.before e.player a ≡ some e.after) =
            rw f at m in
          arena.next_turn e.before e.after e.player a k
    ]

    -- Every entry of the trace is one turn.
    Linked-turn :
        (a b : ArenaState Public Extra) (es : List (TraceEvent Public Extra))
        → Linked rules state_hash a es b
        → b.turn ≡ a.turn + length es
    unfolding forfeit_state
    Linked-turn a b [] l = rw l (omega arith)
    Linked-turn a b (e ∷ es) (p, m, l) =
        let rest = Linked-turn e.after b es l in
        let one : e.after.turn ≡ a.turn + 1 = rw (← p) (move_turn e m) in omega arith

    finished :
        (seed : ℤ) (t : RunState Public Extra)
        → loop rules state_hash config backed agents limit
            (begin rules state_hash config backed agents seed)
          ≡ some t
        → (s : RunState Public Extra) × (run rules state_hash config backed agents seed ≡ some s)
          × (length s.trace_events ≡ s.state.turn)
          × (s.state.turn ≤ limit)
    unfolding run
    finished seed t e =
        let first = arena.first_turn seed in
        let s = truncate rules state_hash config backed agents t in
        let r : run rules state_hash config backed agents seed ≡ some s = rw e refl in
        let (linked, _) = run-IsRecorded rules state_hash config backed agents seed s r in
        let turns = Linked-turn (rules.initial_state seed) s.state s.trace_events linked in
        let bound =
          loop_bound limit (begin rules state_hash config backed agents seed) t
            (rw first (omega arith)) e in
        let kept = state-truncate rules state_hash config backed agents t in
        (s, r, omega arith, rw kept bound)

    -- Every run of an arena ends with the turn limit as fuel; its final turn is the number of
    -- events of its trace, and is at most the turn limit.
    pub run_total :
        (seed : ℤ)
        → (s : RunState Public Extra) × (run rules state_hash config backed agents seed ≡ some s)
          × (length s.trace_events ≡ s.state.turn)
          × (s.state.turn ≤ limit)
    run_total seed =
        let first = arena.first_turn seed in
        let (t, e) =
          loop_total limit (begin rules state_hash config backed agents seed)
            (rw first (omega arith)) (rw first (omega arith)) in
        finished seed t e
