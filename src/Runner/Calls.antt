-- ===== src/Runner/Calls.antt =====
-- `_call_agent` of src/eslams/runner.py: what a call of an agent comes to.
use e_slams.Prelude.{
  Bool, Bool-cases, List, Option, Option-cases, String, [], any, false, if◌then◌else◌, inl, inr,
  is_none, ltb, none, not, refl, some, str_eq, true, ℕ, ◌&&◌, ◌++◌, ◌||◌, ◌∷◌, ◌≡◌, ◌⊎◌,
}
use e_slams.Json.{Json}

-- How `agent.act` ends: with a response (its action, and `metadata["error_kind"]`), or with the
-- exception that `_call_agent` catches. The agent and its transport are not part of the model.
pub data CallResult : Type 0 where
  acted : Option Json → Option String → CallResult
  cancelled : CallResult
  timed_out : CallResult
  provider_error : String → CallResult
  protocol_error : CallResult
  crashed : CallResult

pub record Call : Type 0 where
  pub result : CallResult
  pub latency_ms : ℕ

-- The parts of `ActResponse` that the runner reads.
pub record Response : Type 0 where
  pub action : Option Json
  pub error_kind : Option String

abbrev pub failed : String → Response
failed kind = record { action = none; error_kind = some kind }

abbrev pub contains : String → List String → Bool
contains m markers = any (λ x. str_eq x m) markers

-- The `try` block and its handlers: the response and the markers.
unfoldable pub caught : CallResult → Response × List String
caught (acted action kind) = (record { action = action; error_kind = kind }, [])
caught cancelled = (failed "operator_cancelled", "agent_error" ∷ "operator_cancelled" ∷ [])
caught timed_out = (failed "provider_timeout", "timeout" ∷ "provider_timeout" ∷ [])
caught (provider_error kind) = (failed kind, "agent_error" ∷ kind ∷ [])
caught protocol_error =
    (failed "action_response_unparseable", "agent_error" ∷ "action_response_unparseable" ∷ [])
caught crashed = (failed "agent_crash", "agent_crash" ∷ [])

abbrev over_budget : Option ℕ → ℕ → Bool
over_budget none latency = false
over_budget (some budget) latency = ltb budget latency

-- An answer that came too late is no answer.
enforce_budget : Option ℕ → ℕ → Response × List String → Response × List String
enforce_budget budget latency (response, markers) =
    if over_budget budget latency && not (contains "timeout" markers)
    then (failed "provider_timeout", markers ++ "timeout" ∷ [])
    else (response, markers)

mark_no_action : Response × List String → Response × List String
mark_no_action (response, markers) =
    (response, if is_none response.action then markers ++ "no_action" ∷ [] else markers)

-- `_call_agent`
unfoldable pub call_agent : Option ℕ → Call → Response × List String
unfolding caught enforce_budget mark_no_action
call_agent budget call = mark_no_action (enforce_budget budget call.latency_ms (caught call.result))

-- `_has_agent_error`
unfoldable pub has_agent_error : List String → Bool
has_agent_error markers =
    any (λ m. str_eq m "timeout" || (str_eq m "agent_crash" || str_eq m "no_action")) markers

-- The values of `FailureClass` (src/eslams/contracts/integrity.py).
abbrev pub failure_classes : List String
failure_classes =
    "provider_transport_error" ∷ "provider_request_rejected" ∷ "provider_refused"
    ∷ "provider_response_schema_mismatch" ∷ "action_response_unparseable" ∷ "action_not_legal"
    ∷ "arena_apply_error" ∷ "provider_auth_failed" ∷ "provider_permission_failed"
    ∷ "provider_rate_limited" ∷ "provider_timeout" ∷ "operator_cancelled"
    ∷ "provider_output_truncated" ∷ "provider_pending" ∷ "provider_cancelled"
    ∷ "provider_interrupted" ∷ "provider_unavailable" ∷ []

-- The first marker that is a failure class.
first_class : List String → String
first_class [] = "agent_error"
first_class (m ∷ ms) = if contains m failure_classes then m else first_class ms

class_of : Option String → List String → String
unfolding first_class
class_of none markers = first_class markers
class_of (some kind) markers = if str_eq kind "" then first_class markers else kind

-- `_failure_class_from_response`
unfoldable pub failure_class_from_response : Response → List String → String
unfolding class_of
failure_class_from_response response markers = class_of response.error_kind markers

-- The failures for which the policy on agent errors is overruled.
unfoldable pub interruption : String → Bool
interruption kind = contains kind (
    "operator_cancelled" ∷ "provider_output_truncated" ∷ "provider_timeout" ∷ "provider_pending"
    ∷ "provider_cancelled" ∷ "provider_interrupted" ∷ "provider_auth_failed"
    ∷ "provider_permission_failed" ∷ "provider_rate_limited" ∷ "provider_request_rejected"
    ∷ "provider_refused" ∷ "provider_response_schema_mismatch" ∷ "provider_transport_error"
    ∷ "provider_unavailable" ∷ [])

QuietOrNone : Response × List String → Type 0
QuietOrNone (response, markers) = (markers ≡ []) ⊎ (response.action ≡ none)

caught_lem : (r : CallResult) → QuietOrNone (caught r)
unfolding caught QuietOrNone
caught_lem (acted action kind) = inl refl
caught_lem cancelled = inr refl
caught_lem timed_out = inr refl
caught_lem (provider_error kind) = inr refl
caught_lem protocol_error = inr refl
caught_lem crashed = inr refl

enforce_budget_lem :
    (budget : Option ℕ) (latency : ℕ) (r : Response × List String)
    → QuietOrNone r
    → QuietOrNone (enforce_budget budget latency r)
unfolding enforce_budget QuietOrNone
enforce_budget_lem budget latency (response, markers) h =
    elim (Bool-cases (over_budget budget latency && not (contains "timeout" markers))) [
      | inl e ↦ rw e (inr refl)
      | inr e ↦ rw e h
    ]

mark_no_action_lem :
    (r : Response × List String)
    → QuietOrNone r
    → has_agent_error (mark_no_action r).1 ≡ true
    → (mark_no_action r).0.action ≡ none
unfolding mark_no_action QuietOrNone
mark_no_action_lem (response, markers) (inr e) h = e
mark_no_action_lem (response, markers) (inl e) h = elim (Option-cases response.action) [
  | inl q ↦ q
  | inr (a, q) ↦
      let h' : has_agent_error markers ≡ true = rw q at h in
      let h'' : has_agent_error [] ≡ true = rw e at h' in unfold has_agent_error in cc h''
]

-- After an agent error there is no action.
pub agent_error_no_action :
    (budget : Option ℕ) (call : Call)
    → has_agent_error (call_agent budget call).1 ≡ true
    → (call_agent budget call).0.action ≡ none
unfolding call_agent
agent_error_no_action budget call h =
    mark_no_action_lem _ (enforce_budget_lem budget call.latency_ms _ (caught_lem call.result)) h
