-- ===== src/Runner/Loop/Validity.antt =====
-- A run that counts for scoring is spotless, and one that does not has a reason.
use e_slams.Prelude.{
  Bool, Bool-cases, Ends, Flow, List, Option, String, [], arith, false, go_on, halt, inl, inr, leb,
  map-some, none, not, refl, some, subst, true, while_flow_inv, ℕ, ◌&&◌, ◌++◌, ◌∷◌, ◌≡◌, ◌≢◌, ◌⊎◌,
}
use e_slams.Json.{Json}
use e_slams.Arena.{ArenaState, InvalidReason, Player, failure_action, of_player, run_truncated}
use e_slams.Arena.Contract.{Rules}
use e_slams.Runner.Calls.{
  Call, Response, agent_error_no_action, call_agent, failure_class_from_response, has_agent_error,
}
use e_slams.Runner.{
  after_agent, agent_phase, allowed, applied, apply_phase, choose, conclude, give_up,
  legality_phase, note_fallback, record_move, refused, replace_illegal, substituted, under_policy,
}
use e_slams.Runner.State.{Choice, FailurePolicy, RunConfig, RunState, fallback, forfeit, or_reason}
use e_slams.Runner.Loop.{
  answered, begin, count_action, loop, play_turn, run, running, truncate, turn_limit,
}
use e_slams.Prelude.Int.{ℤ}

-- Nothing went wrong: no count, no reason, no code, no error.
pub record IsSpotless {Public Extra : Type 0} (s : RunState Public Extra) : Type 0 where
  pub no_agent_errors : (s.agent_errors.first ≡ 0) × (s.agent_errors.second ≡ 0)
  pub no_illegal_actions : (s.illegal_actions.first ≡ 0) × (s.illegal_actions.second ≡ 0)
  pub no_fallback_actions : (s.fallback_actions.first ≡ 0) × (s.fallback_actions.second ≡ 0)
  pub no_errors : s.errors ≡ []
  pub no_codes : s.reason_codes ≡ []
  pub no_reason : s.invalid_reason ≡ none

-- A valid run is spotless, and an invalid one says why.
pub record IsAccounted {Public Extra : Type 0} (s : RunState Public Extra) : Type 0 where
  pub clean : s.valid_for_scoring ≡ true → IsSpotless s
  pub explained : s.valid_for_scoring ≡ false → s.invalid_reason ≢ none

-- Accounted, and invalid.
abbrev pub IsInvalid : {Public Extra : Type 0} → RunState Public Extra → Type 0
IsInvalid s = IsAccounted s × (s.valid_for_scoring ≡ false)

-- What phase 1 leaves: an accounted run, or a response with no action.
abbrev After : {Public Extra : Type 0} → Response → Flow (RunState Public Extra) (Unit {0}) → Type 0
After response (halt s) = IsInvalid s
After response (go_on s _) = IsAccounted s ⊎ (response.action ≡ none)

module _ {Public Extra : Type 0} (rules : Rules Public Extra)
    (state_hash : ArenaState Public Extra → String) where
  explained-IsInvalid :
      (s : RunState Public Extra) (r : InvalidReason)
      → s.valid_for_scoring ≡ false
      → s.invalid_reason ≡ some r
      → IsInvalid s
  explained-IsInvalid s r v e = (record { clean = λ h. cc; explained = λ h k. cc }, v)

  give_up-IsInvalid :
      (s : RunState Public Extra) (player : Player) (policy : FailurePolicy) (action : Option Json)
      (reason : InvalidReason)
      → IsInvalid (give_up rules state_hash s player policy action reason)
  unfolding give_up
  give_up-IsInvalid s player forfeit action reason = explained-IsInvalid _ reason refl refl
  give_up-IsInvalid s player _ action reason = explained-IsInvalid _ reason refl refl

  under_policy-After :
      (policy : FailurePolicy) (s : RunState Public Extra) (player : Player) (response : Response)
      (reason : InvalidReason)
      → response.action ≡ none
      → After response (under_policy rules state_hash policy s player response.action reason)
  unfolding under_policy
  under_policy-After fallback s player response reason h = inr h
  under_policy-After policy s player response reason h =
      give_up-IsInvalid s player policy response.action reason

  phase_one :
      (config : RunConfig) (player : Player) (response : Response) (markers : List String)
      (s : RunState Public Extra)
      → (has_agent_error markers ≡ true → response.action ≡ none)
      → IsAccounted s
      → After response (agent_phase rules state_hash config player response markers s)
  unfolding agent_phase
  phase_one config player response markers s quiet a = elim (Bool-cases (has_agent_error markers)) [
    | inr e ↦ rw e (inl a)
    | inl e ↦ rw e (
        under_policy-After _ _ player response
          (of_player player (failure_class_from_response response markers) markers) (quiet e))
  ]

  or_reason-some :
      (o : Option InvalidReason) (r : InvalidReason)
      → (q : InvalidReason) × (or_reason o r ≡ some q)
  or_reason-some none r = (r, refl)
  or_reason-some (some q) r = (q, refl)

  note_fallback-IsAccounted :
      (s : RunState Public Extra) (player : Player) (markers : List String)
      → IsAccounted (note_fallback rules state_hash s player markers)
  unfolding note_fallback
  note_fallback-IsAccounted s player markers =
      let (q, e) =
        or_reason-some s.invalid_reason (of_player player "fallback_action_used" markers) in
      (explained-IsInvalid _ q refl e).0

  -- What phase 2 leaves: an accounted run, or no action at all.
  abbrev Chosen : RunState Public Extra × Choice → Type 0
  Chosen (s, c) = IsAccounted s ⊎ (c.action ≡ none)

  phase_two :
      (player : Player) (backed : Bool) (action : Option Json) (markers : List String)
      (s : RunState Public Extra)
      → IsAccounted s ⊎ (action ≡ none)
      → Chosen (choose rules state_hash player backed action markers s)
  unfolding choose
  phase_two player backed (some action) markers s (inl a) = inl a
  phase_two player backed (some action) markers s (inr e) = cc
  phase_two player backed none markers s h = two (failure_action s.state player)
    where
      two : (o : Option Json) → Chosen (substituted rules state_hash player backed o markers s)
      two none = inr refl
      two (some action) =
          inl (note_fallback-IsAccounted s player (markers ++ "fallback_action" ∷ []))

  replace_illegal-Ends :
      (player : Player) (markers : List String) (s : RunState Public Extra) (o : Option Json)
      → Ends IsInvalid IsAccounted (replace_illegal rules state_hash player markers s o)
  unfolding replace_illegal
  replace_illegal-Ends player markers s o =
      elim (Bool-cases (allowed rules state_hash s player o)) [
        | inl e ↦ rw e (note_fallback-IsAccounted s player (markers ++ "fallback_action" ∷ []))
        | inr e ↦ rw e (
            explained-IsInvalid _ (of_player player "illegal_action_no_fallback" markers) refl refl)
      ]

  refused-Ends :
      (policy : FailurePolicy) (player : Player) (action : Option Json) (markers : List String)
      (s : RunState Public Extra)
      → Ends IsInvalid IsAccounted (refused rules state_hash policy player action markers s)
  unfolding refused
  refused-Ends fallback player action markers s =
      replace_illegal-Ends player markers s (failure_action s.state player)
  refused-Ends policy player action markers s =
      give_up-IsInvalid s player policy action (of_player player "illegal_action" markers)

  phase_three :
      (config : RunConfig) (player : Player) (r : RunState Public Extra × Choice)
      → Chosen r
      → Ends IsInvalid IsAccounted (legality_phase rules state_hash config player r)
  unfolding legality_phase
  phase_three config player (s, c) h =
      elim (Bool-cases (allowed rules state_hash s player c.action)) [
        | inl e ↦ rw e (two h e)
        | inr e ↦ rw e (refused-Ends config.on_illegal_action player c.action _ _)
      ]
    where
      two : Chosen (s, c) → allowed rules state_hash s player c.action ≡ true → IsAccounted s
      two (inl a) e = a
      two (inr q) e = let e' : allowed rules state_hash s player none ≡ true = rw q at e in cc

  -- The events and the state have no part in the account.
  record_move-IsAccounted :
      (s : RunState Public Extra) (player : Player) (action : Option Json) (gave_up : Bool)
      (next : ArenaState Public Extra)
      → IsAccounted s
      → IsAccounted (record_move rules state_hash s player action gave_up next)
  unfolding record_move
  record_move-IsAccounted s player action gave_up next a = record {
    clean = λ v.
        let c = a.clean v in
        record {
          no_agent_errors = c.no_agent_errors;
          no_illegal_actions = c.no_illegal_actions;
          no_fallback_actions = c.no_fallback_actions;
          no_errors = c.no_errors;
          no_codes = c.no_codes;
          no_reason = c.no_reason;
        };
    explained = a.explained;
  }

  conclude-Ends :
      (player : Player) (s : RunState Public Extra) (choice : Choice)
      (o : Option (ArenaState Public Extra))
      → IsAccounted s
      → Ends IsInvalid IsAccounted (conclude rules state_hash player s choice o)
  unfolding conclude
  conclude-Ends player s choice none a =
      explained-IsInvalid _
        (of_player player "arena_apply_error" (choice.markers ++ "arena_apply_error" ∷ [])) refl
        refl
  conclude-Ends player s choice (some next) a =
      record_move-IsAccounted s player choice.action false next a

  phase_four :
      (player : Player) (f : Flow (RunState Public Extra) Choice)
      → Ends IsInvalid IsAccounted f
      → Ends IsInvalid IsAccounted (apply_phase rules state_hash player f)
  unfolding apply_phase
  phase_four player (halt s) h = h
  phase_four player (go_on s choice) h =
      conclude-Ends player s choice (applied rules state_hash s.state player choice.action) h

  after_agent-Ends :
      (config : RunConfig) (player : Player) (backed : Bool) (response : Response)
      (markers : List String) (f : Flow (RunState Public Extra) (Unit {0}))
      → After response f
      → Ends IsInvalid IsAccounted
          (after_agent rules state_hash config player backed response markers f)
  unfolding after_agent
  after_agent-Ends config player backed response markers (halt s) h = h
  after_agent-Ends config player backed response markers (go_on s _) h =
      phase_four player _
        (phase_three config player _ (phase_two player backed response.action markers s h))

  count_action-IsAccounted :
      (s : RunState Public Extra) → IsAccounted s → IsAccounted (count_action rules state_hash s)
  count_action-IsAccounted s a = record {
    clean = λ v.
        let c = a.clean v in
        record {
          no_agent_errors = c.no_agent_errors;
          no_illegal_actions = c.no_illegal_actions;
          no_fallback_actions = c.no_fallback_actions;
          no_errors = c.no_errors;
          no_codes = c.no_codes;
          no_reason = c.no_reason;
        };
    explained = a.explained;
  }

  module _ (config : RunConfig) (backed : Player → Bool)
      (agents : Player → ArenaState Public Extra → Call) where
    play_turn-Ends :
        (s : RunState Public Extra)
        → IsAccounted s
        → Ends IsInvalid IsAccounted (play_turn rules state_hash config backed agents s)
    unfolding play_turn answered
    play_turn-Ends s a =
        let call = agents s.state.active_player s.state in
        let (response, markers) = call_agent config.time_budget_ms call in
        after_agent-Ends config s.state.active_player (backed s.state.active_player) response
          markers _
          (phase_one config s.state.active_player response markers _
            (agent_error_no_action config.time_budget_ms call) (count_action-IsAccounted s a))

    -- What the loop ends with: an invalid run, or an accounted one that is not running.
    loop_lem :
        (fuel : ℕ) (s t : RunState Public Extra)
        → IsAccounted s
        → loop rules state_hash config backed agents fuel s ≡ some t
        → IsInvalid t ⊎ (IsAccounted t × (running rules state_hash config backed agents t ≡ false))
    unfolding loop
    loop_lem =
        while_flow_inv IsAccounted IsInvalid (running rules state_hash config backed agents)
          (play_turn rules state_hash config backed agents) (λ s a _. play_turn-Ends s a)

    truncate-IsAccounted :
        (s : RunState Public Extra)
        → IsInvalid s ⊎ (IsAccounted s × (running rules state_hash config backed agents s ≡ false))
        → IsAccounted (truncate rules state_hash config backed agents s)
          × ((truncate rules state_hash config backed agents s).valid_for_scoring ≡ true
              → s.state.terminal ≡ true)
    unfolding truncate
    truncate-IsAccounted s h =
        elim (Bool-cases (
          not s.state.terminal
          && leb (turn_limit rules state_hash config backed agents) s.state.turn)) [
            | inl e ↦
                let (q, k) = or_reason-some s.invalid_reason run_truncated in
                rw e ((explained-IsInvalid _ q refl k).0, λ v. cc)
            | inr e ↦ rw e (two h e)
          ]
      where
        two :
            IsInvalid s
              ⊎ (IsAccounted s × (running rules state_hash config backed agents s ≡ false))
            → (not s.state.terminal
                && leb (turn_limit rules state_hash config backed agents) s.state.turn)
              ≡ false
            → IsAccounted s × (s.valid_for_scoring ≡ true → s.state.terminal ≡ true)
        two (inl (a, v)) e = (a, λ w. cc)
        two (inr (a, r)) e = (a, λ w. ground arith)

    pub state-truncate :
        (s : RunState Public Extra)
        → (truncate rules state_hash config backed agents s).state ≡ s.state
    unfolding truncate
    state-truncate s = ground arith

    begin-IsAccounted : (seed : ℤ) → IsAccounted (begin rules state_hash config backed agents seed)
    begin-IsAccounted seed = record {
      clean = λ v. record {
        no_agent_errors = (refl, refl);
        no_illegal_actions = (refl, refl);
        no_fallback_actions = (refl, refl);
        no_errors = refl;
        no_codes = refl;
        no_reason = refl;
      };
      explained = λ v. cc;
    }

    -- A finished run that is valid for scoring ended in a terminal state, and counted no agent
    -- error, illegal action or fallback action, no error row, no reason code and no invalid
    -- reason; a run that is not valid gives a reason.
    pub run-IsAccounted :
        (seed : ℤ) (s : RunState Public Extra)
        → run rules state_hash config backed agents seed ≡ some s
        → IsAccounted s × (s.valid_for_scoring ≡ true → s.state.terminal ≡ true)
    unfolding run
    run-IsAccounted seed s h =
        let (t, e, q) = map-some _ (loop rules state_hash config backed agents _ _) h in
        let ended =
          loop_lem _ (begin rules state_hash config backed agents seed) t (begin-IsAccounted seed)
            e in
        let (a, over) = truncate-IsAccounted t ended in
        let kept = state-truncate t in
        subst (λ r. IsAccounted r × (r.valid_for_scoring ≡ true → r.state.terminal ≡ true)) q
          (a, λ v. rw kept (over v))
