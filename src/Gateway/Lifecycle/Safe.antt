-- ===== src/Gateway/Lifecycle/Safe.antt =====
-- The calls of the lifecycle handlers are allowed: they report, and leave phase and spec alone.
use aip_k8s.Prelude.{String, inl, not, ◌&&◌, List, ◌≡◌, refl, str_eq}
use aip_k8s.Api.Request.{AgentRequest}
use aip_k8s.Effects.{Outcome, ok, err}
use aip_k8s.Effects.Logic.{
  Runs, Runs-weaken, Runs-invoke, Runs-attempt_invoke, Runs-raise, Runs-bind, Runs-if, Runs-option,
}
use aip_k8s.Gateway.Roles.{Role}
use aip_k8s.Gateway.Server.{
  Server, Caller, caller_of, M, Call, HttpRequest, Response, patch_status, patch_status_m,
  list_audit_events, set_variable, client, api_reader,
}
use aip_k8s.Gateway.Review.{is_phase}
use aip_k8s.Gateway.Lifecycle.{
  ResultBody, request_details, handle_get, set_condition, patch_condition, transition,
  handle_transition, handle_executing, handle_completed, record_result, put_result, invalid_result,
  read_for_result, handle_put_result,
}
use aip_k8s.Gateway.Safety.{
  RetriesConflicts, WasRead, HasRole, Allowed, Safe, get-Read, get-WasRead, retry-Safe, answer-Safe,
  fail-Safe, with_role-Safe,
}

module _ {F : Type 0} (s : Server F) (asks : Caller → Type 0) where
  -- A value that an action computes without a call.
  computed-Safe :
      {A : Type 0} {Ev : List Call → Type 0} (f : List Call → A)
      → Runs (Allowed s asks) Ev (λ t. (ok (f t), t)) (λ _. Ev)
  computed-Safe f = record { at = λ t h e. (h, e) }

  request_details-Safe :
      (ns name : String) (answer : Outcome AgentRequest)
      → Safe s asks (request_details s ns name answer)
  unfolding request_details
  request_details-Safe ns name (err e) = answer-Safe s asks _
  request_details-Safe ns name (ok req) =
      Runs-bind
        (Runs-attempt_invoke {Q = λ _ _. Unit} (list_audit_events ns) _ (λ t e. tt) (λ t e. tt))
        (λ listed. answer-Safe s asks _)

  pub handle_get-Safe : (r : HttpRequest (Unit {0})) → Safe s asks (handle_get s r)
  unfolding handle_get
  handle_get-Safe r =
      Runs-if (s.auth_required && str_eq r.sub "") (λ e. fail-Safe s asks _ _)
        (λ e.
          Runs-bind (Runs-weaken (get-Read s asks client _ r.name) (λ a t p. tt))
            (request_details-Safe _ r.name))

  module _ (retries : RetriesConflicts s) (who : Caller)
      (agent : HasRole s asks Role.agent who) where
    patched-Safe :
        (req n : AgentRequest)
        → WasRead s req
        → n.status.phase ≡ req.status.phase
        → n.spec ≡ req.spec
        → n.status.verdict ≡ req.status.verdict
        → Safe s asks (patch_status_m s req n)
    patched-Safe req n read phase spec verdict =
        Runs-invoke (patch_status req n) _
          (λ t e. inl (record {
            read = read;
            who = who;
            agent = agent;
            phase_eq = phase;
            spec_eq = spec;
            verdict_eq = verdict;
          }))
          (λ t e a p. tt)

    set_condition-Safe :
        (ns name type reason m : String) → Safe s asks (set_condition s ns name type reason m)
    unfolding set_condition
    set_condition-Safe ns name type reason m = Runs-bind (get-WasRead s asks client ns name) (λ req.
        Runs-bind (computed-Safe _) (λ conditions. record {
          at = λ t h read. (patched-Safe req _ read refl refl refl).at t h tt;
        }))

    patch_condition-Safe :
        (ns name type reason m : String) → Safe s asks (patch_condition s ns name type reason m)
    unfolding patch_condition
    patch_condition-Safe ns name type reason m =
        Runs-bind (retry-Safe s asks retries (set_condition-Safe ns name type reason m))
          (λ patched. answer-Safe s asks _)

    transition-Safe :
        (from complaint : String) {next : M Response} (answer : Outcome AgentRequest)
        → Safe s asks next
        → Safe s asks (transition s from complaint next who.sub answer)
    unfolding transition
    transition-Safe from complaint (err e) k = answer-Safe s asks _
    transition-Safe from complaint (ok req) k =
        Runs-if (s.auth_required && not (str_eq req.spec.agent_identity who.sub))
          (λ e. fail-Safe s asks _ _)
          (λ e. Runs-if (not (is_phase from req)) (λ d. fail-Safe s asks _ _) (λ d. k))

    record_result-Safe :
        (ns name : String) (body : ResultBody) → Safe s asks (record_result s ns name body)
    unfolding record_result
    record_result-Safe ns name body = Runs-bind (get-WasRead s asks api_reader ns name) (λ req.
        record {
          at = λ t h read.
              (Runs-if {Ev = λ _. Unit}
                  (not (is_phase "Executing" req) && not (is_phase "Completed" req))
                  (λ e.
                    Runs-bind
                      (Runs-invoke {Q = λ _ _. Unit} (set_variable _) _ (λ t e. tt) (λ t e a p. tt))
                      (λ _. Runs-raise _))
                  (λ e. patched-Safe req _ read refl refl refl)).at
                t h tt;
        })

    put_result-Safe :
        (ns : String) (r : HttpRequest ResultBody) (body : ResultBody)
        (answer : Outcome AgentRequest)
        → Safe s asks (put_result s ns r body answer)
    unfolding put_result
    put_result-Safe ns r body (err e) = answer-Safe s asks _
    put_result-Safe ns r body (ok req) =
        Runs-if (s.auth_required && not (str_eq req.spec.agent_identity r.sub))
          (λ e. fail-Safe s asks _ _)
          (λ e.
            Runs-bind
              (Runs-invoke {Q = λ _ _. Unit} (set_variable "") _ (λ t e. tt) (λ t e a p. tt))
              (λ _.
                Runs-bind (retry-Safe s asks retries (record_result-Safe ns r.name body))
                  (λ recorded. Runs-bind (computed-Safe _) (λ wrong_phase. answer-Safe s asks _))))

  handle_transition-Safe :
      RetriesConflicts s
      → (from complaint type reason m : String) (r : HttpRequest (Unit {0})) → asks (caller_of r)
      → Safe s asks (handle_transition s from complaint type reason m r)
  unfolding handle_transition
  handle_transition-Safe retries from complaint type reason m r asked =
      with_role-Safe s asks Role.agent r asked (λ agent.
        Runs-bind (Runs-weaken (get-Read s asks client _ r.name) (λ a t p. tt)) (λ answer.
          transition-Safe retries (caller_of r) agent from complaint answer
            (patch_condition-Safe retries (caller_of r) agent _ r.name type reason m)))

  pub handle_executing-Safe :
      RetriesConflicts s
      → (r : HttpRequest (Unit {0})) → asks (caller_of r)
      → Safe s asks (handle_executing s r)
  unfolding handle_executing
  handle_executing-Safe retries = handle_transition-Safe retries _ _ _ _ _

  pub handle_completed-Safe :
      RetriesConflicts s
      → (r : HttpRequest (Unit {0})) → asks (caller_of r)
      → Safe s asks (handle_completed s r)
  unfolding handle_completed
  handle_completed-Safe retries = handle_transition-Safe retries _ _ _ _ _

  pub handle_put_result-Safe :
      RetriesConflicts s
      → (r : HttpRequest ResultBody) → asks (caller_of r)
      → Safe s asks (handle_put_result s r)
  unfolding handle_put_result read_for_result
  handle_put_result-Safe retries r asked = with_role-Safe s asks Role.agent r asked (λ agent.
      Runs-option r.body (λ e. fail-Safe s asks _ _)
        (λ body e.
          Runs-option (invalid_result s body)
            (λ valid.
              Runs-bind (Runs-weaken (get-Read s asks api_reader _ r.name) (λ a t p. tt))
                (λ answer. put_result-Safe retries (caller_of r) agent _ r body answer))
            (λ m d. fail-Safe s asks _ _)))
