-- ===== src/Gateway/Review.antt =====
-- cmd/gateway/agent_request_review_handlers.go: a reviewer approves or denies a pending request, or
-- grades a request that awaits a verdict. A decision is "approved" or "denied".
pub mod Safe
pub mod Answers
use aip_k8s.Prelude.{
  ℕ, String, Bool, true, false, not, ◌&&◌, Option, none, some, List, [], ◌∷◌, str_eq, str_append,
  contains, map, if◌then◌else◌, on_option,
}
use aip_k8s.Api.Request.{AgentRequest, Message, Decision, phase_name, text, sprintf, str}
use aip_k8s.Effects.{
  Outcome, ok, err, wrapped, verdict_wrong_phase, is_not_found, is_verdict_wrong_phase, pure, raise,
  attempt, ◌>>=◌, ◌>>◌,
}
use aip_k8s.Gateway.Roles.{Role, require_role}
use aip_k8s.Gateway.Server.{
  Server, M, HttpRequest, Response, Body, client, error, error_of, error_with, message, decided,
  namespace_or_default, now, get_request_m, patch_object_m, patch_status_locked_m, mint_token_m,
}

unfoldable pub respond : ℕ → Body → Response
respond status body = record { status = status; body = body }

unfoldable pub fail_with : ℕ → Message → M Response
fail_with status m = pure (respond status (error m))

abbrev pub fail : ℕ → String → M Response
fail status m = fail_with status (text m)

-- The body of a verdict.
pub record VerdictBody : Type 0 where
  pub verdict : String
  pub reason_code : String
  pub note : String

abbrev pub reason_codes : List String
reason_codes =
    "wrong_diagnosis" ∷ "bad_timing" ∷ "scope_too_broad" ∷ "precautionary" ∷ "policy_block" ∷ []

-- The checks of the body; a message is the answer 400.
pub invalid_verdict : VerdictBody → Option Message
invalid_verdict body =
    if not (str_eq body.verdict "correct")
      && not (str_eq body.verdict "incorrect")
      && not (str_eq body.verdict "partial")
    then some (text "invalid verdict")
    else (if not (str_eq body.verdict "correct") && str_eq body.reason_code ""
        then some (text "reasonCode is required when verdict is not 'correct'")
        else (if not (str_eq body.reason_code "") && not (contains reason_codes body.reason_code)
            then some (
                sprintf "invalid reasonCode %q; must be one of: %s"
                  (str body.reason_code ∷ map str reason_codes))
            else none))

pub is_phase : String → AgentRequest → Bool
is_phase phase req = str_eq (phase_name req.status.phase) phase

pub verdict_answer : Outcome (Unit {0}) → Response
verdict_answer (ok _) = respond 200 (message "verdict submitted")
verdict_answer (err e) =
    if is_not_found e
    then respond 404 (error (text "AgentRequest not found"))
    else (if is_verdict_wrong_phase e
        then respond 409 (error_of e)
        else respond 500 (error_with "failed to submit verdict: %v" e))

pub is_approval : Decision → Bool
is_approval Decision.approved = true
is_approval Decision.denied = false

pub reviewer_name : String → String
reviewer_name sub = if str_eq sub "" then "unknown (admin)" else sub

-- The object after the patch is the server's answer.
pub decision_answer : String → Option (String × ℕ) → Outcome AgentRequest → Response
decision_answer name token (ok patched) = respond 200 (decided name token patched.status.phase)
decision_answer name token (err e) = respond 500 (error_of e)

module _ {F : Type 0} (s : Server F) where
  -- The checks that every handler with a role starts with.
  unfoldable pub with_role : {B : Type 0} → Role → HttpRequest B → M Response → M Response
  with_role role r next =
      if s.auth_required && str_eq r.sub ""
      then fail 401 "caller identity required"
      else on_option (require_role s.roles role r.sub r.groups) next (λ m. fail 403 m)

  pub graded : String → VerdictBody → AgentRequest → M (Unit {0})
  graded sub body req = do
    time ← now s
    patch_status_locked_m s req (record req {
      status = record req.status {
        verdict = body.verdict;
        verdict_reason_code = body.reason_code;
        verdict_note = body.note;
        verdict_by = sub;
        verdict_at = some time;
      };
    })

  -- The body of the retry.
  pub grade : String → String → String → VerdictBody → M (Unit {0})
  grade ns name sub body = do
    req ← get_request_m s client ns name
    if not (is_phase "AwaitingVerdict" req)
        then raise (
            wrapped (str_append "request is in phase " (s.quote (phase_name req.status.phase)))
              verdict_wrong_phase)
        else (if not (str_eq req.status.verdict "")
            then raise (
                wrapped (str_append "request already graded as " (s.quote req.status.verdict))
                  verdict_wrong_phase)
            else graded sub body req)

  pub submit_verdict : String → HttpRequest VerdictBody → VerdictBody → M Response
  submit_verdict ns r body =
      on_option (invalid_verdict body)
        (do
          answer ← attempt (s.retry_on_conflict (grade ns r.name r.sub body))
          pure (verdict_answer answer))
        (fail_with 400)

  pub handle_verdict : HttpRequest VerdictBody → M Response
  handle_verdict r = with_role Role.reviewer r (
      on_option r.body (fail 400 "invalid request body")
        (submit_verdict (namespace_or_default r.namespace) r))

  -- An approval over active endpoints needs a reason.
  pub needs_reason : Decision → AgentRequest → String → Bool
  needs_reason decision req reason =
      is_approval decision
      && on_option req.status.verification false (λ v. v.context.has_active_endpoints)
      && str_eq (s.trim_space reason) ""

  pub human_reason : Decision → String → String
  human_reason decision reason =
      if str_eq (s.trim_space reason) "" && not (is_approval decision)
      then "denied via dashboard"
      else s.trim_space reason

  unfoldable pub decided_request : Decision → String → String → AgentRequest → AgentRequest
  decided_request decision sub reason req = record req {
    spec = record req.spec {
      human_approval = some (record {
        decision = decision;
        reason = human_reason decision reason;
        for_generation = req.status.evaluation_generation;
        approved_by = reviewer_name sub;
      });
    };
  }

  -- The patch, after the token was minted.
  pub record_decision : Decision → String → String → AgentRequest → Option (String × ℕ) → M Response
  record_decision decision sub reason req token = do
    patched ← attempt (patch_object_m s req (decided_request decision sub reason req))
    pure (decision_answer req.name token patched)

  pub token_minted : Decision → String → String → AgentRequest → Outcome (String × ℕ) → M Response
  token_minted decision sub reason req (ok token) =
      record_decision decision sub reason req (some token)
  token_minted decision sub reason req (err e) = fail 500 "approval failed: could not mint token"

  pub decide : Decision → String → String → AgentRequest → M Response
  decide decision sub reason req =
      if is_approval decision && s.has_jwt_manager
      then (do
        token ←
            attempt
              (mint_token_m s req.spec.agent_identity req.spec.action req.spec.target_uri req.name)
        token_minted decision sub reason req token)
      else record_decision decision sub reason req none

  pub review : Decision → String → String → Outcome AgentRequest → M Response
  review decision sub reason (err e) = pure (respond 404 (error_of e))
  review decision sub reason (ok req) =
      if str_eq req.spec.agent_identity sub
      then fail 403 "forbidden: self-approval not permitted"
      else (if not (is_phase "Pending" req)
          then fail_with 409 (
              sprintf "request is in phase %q — can only approve/deny when Pending"
                (str (phase_name req.status.phase) ∷ []))
          else (if needs_reason decision req reason
              then fail 400
                  "reason required: control plane verified active endpoints — explain why this override is safe"
              else decide decision sub reason req))

  -- `handleHumanDecision`; the reason is empty where the body is not JSON with one.
  pub handle_human_decision : Decision → HttpRequest String → M Response
  handle_human_decision decision r = with_role Role.reviewer r (do
    answer ← attempt (get_request_m s client (namespace_or_default r.namespace) r.name)
    review decision r.sub (on_option r.body "" (λ reason. reason)) answer)
