-- ===== src/Gateway/Create/Safe.antt =====
-- The calls of `handleCreateAgentRequest` are allowed, from the creation on.
use aip_k8s.Prelude.{String, Bool, true, ◌||◌, Option, none, some, List, ◌≡◌, refl, inr, ltb}
use aip_k8s.Api.Policy.{GovernedResource}
use aip_k8s.Api.Request.{AgentRequest}
use aip_k8s.Effects.{Outcome, ok, err, is_not_found, is_already_exists, is_invalid, is_bad_request}
use aip_k8s.Effects.Logic.{
  Runs, Runs-given, Runs-pure, Runs-invoke, Runs-attempt_invoke, Runs-bind, Runs-if, Keeps-bind,
  Keeps-attempt, Keeps-then, Keeps-ignore, Keeps-pure, Keeps-if,
}
use aip_k8s.Gateway.Server.{
  Server, Caller, Trace, client, read_clock, create_request, delete_request, get_request,
  patch_status, flush,
}
use aip_k8s.Gateway.Admission.{IsAdmission, IsStale}
use aip_k8s.Gateway.Safety.{Allowed, Safe, answer-Safe, fail-Safe}
use aip_k8s.Gateway.Wait.Quiet.{Quiet, Quiet-Safe, plain, event-Quiet, await_outcome-Quiet}
use aip_k8s.Gateway.Create.Body.{CreateBody}
use aip_k8s.Gateway.Create.Filing.{
  is_terminal_phase, mirror, duplicate_streamed, duplicate_response, stale_deleted, existing_found,
  created, named, create,
}

module _ {F : Type 0} (s : Server F) (asks : Caller → Type 0) where
  pub mirror-Quiet :
      (gr : Option GovernedResource) (wanted made : AgentRequest) (t : Trace)
      → s.on_create_request t wanted ≡ ok made
      → Quiet s asks (mirror s gr made)
  unfolding mirror
  mirror-Quiet none wanted made t e = Keeps-pure _
  mirror-Quiet (some gr) wanted made t e = Keeps-ignore (
      plain s asks (patch_status made _) _ (λ u.
        inr (record {
          wanted = wanted;
          created_at = t;
          created = e;
          phase_eq = refl;
          spec_eq = refl;
        })))

  stale_deleted-Safe :
      (name : String) (answer : Outcome (Unit {0})) → Safe s asks (stale_deleted s name answer)
  unfolding stale_deleted
  stale_deleted-Safe name (ok _) = fail-Safe s asks _ _
  stale_deleted-Safe name (err e) =
      Runs-if (is_not_found e) (λ _. fail-Safe s asks _ _) (λ _. answer-Safe s asks _)

  duplicate_response-Quiet :
      (sse : Bool) (existing : AgentRequest) (labels : List (String × String))
      → Quiet s asks (duplicate_response s sse existing labels)
  unfolding duplicate_response duplicate_streamed
  duplicate_response-Quiet sse existing labels =
      Keeps-if sse (Keeps-bind (Keeps-attempt (plain s asks flush _ (λ t. tt))) streamed)
        (Keeps-pure _)
    where
      streamed :
          (answer : Outcome (Unit {0})) → Quiet s asks (duplicate_streamed s existing labels answer)
      streamed (ok _) = Keeps-then (Keeps-ignore (event-Quiet s asks "result" _)) (Keeps-pure _)
      streamed (err e) = Keeps-pure _

  module _ (sse : Bool) (labels : List (String × String)) where
    existing_found-Safe :
        (answer : Outcome AgentRequest)
        → ((b : AgentRequest)
            → answer ≡ ok b
            → is_terminal_phase b.status.phase ≡ true
            → IsStale s b)
        → Safe s asks (existing_found s sse labels answer)
    unfolding existing_found
    existing_found-Safe (err e) stale = answer-Safe s asks _
    existing_found-Safe (ok existing) stale =
        Runs-if (is_terminal_phase existing.status.phase)
          (λ terminal.
            Runs-bind
              (Runs-attempt_invoke {Q = λ _ _. Unit} (delete_request existing) _
                (λ t e. stale existing refl terminal) (λ t e. tt))
              (λ gone. stale_deleted-Safe existing.name gone))
          (λ active. Quiet-Safe s asks (duplicate_response-Quiet sse existing labels))

    created-Safe :
        (gr : Option GovernedResource) (req : AgentRequest) (t : Trace)
        (answer : Outcome AgentRequest)
        → s.on_create_request t req ≡ answer
        → Safe s asks (created s sse gr req labels answer)
    unfolding created is_terminal_phase
    created-Safe gr req t (ok made) e = Quiet-Safe s asks (
        Keeps-then (mirror-Quiet gr req made t e)
          (await_outcome-Quiet s asks made.name labels sse req.namespace))
    created-Safe gr req t (err x) e =
        Runs-if (is_already_exists x)
          (λ exists.
            Runs-bind
              (Runs-attempt_invoke
                {Q = λ answer u.
                  (v : Trace) × (s.on_get_request v client req.namespace req.name ≡ answer)}
                (get_request client req.namespace req.name) _ (λ v e. tt) (λ v e. (v, refl)))
              (λ answer. Runs-given (λ u found. existing_found-Safe answer (λ b is_b terminal.
                record {
                  wanted = req;
                  failure = x;
                  created_at = t;
                  refused = e;
                  exists = exists;
                  read_at = found.0;
                  read = rw found.1 is_b;
                  terminal = terminal;
                }))))
          (λ new.
            Runs-if (is_invalid x || is_bad_request x) (λ e. answer-Safe s asks _)
              (λ e. answer-Safe s asks _))

    named-Admission :
        (body : CreateBody) (req : AgentRequest)
        → IsAdmission s asks req
        → Runs (Allowed s asks) (λ _. Unit) (named s body req) (λ n t. IsAdmission s asks n)
    unfolding named
    named-Admission body req a =
        Runs-if (ltb 0 s.dedup_window)
          (λ e.
            Runs-bind (Runs-invoke {Q = λ _ _. Unit} read_clock _ (λ t e. tt) (λ t e a p. tt))
              (λ time. Runs-pure _ (λ t e. record {
                who = a.who;
                agent = a.agent;
                identity = a.identity;
                items = a.items;
                listed = a.listed;
                governed = a.governed;
                new = a.new;
              })))
          (λ e. Runs-pure _ (λ t e. a))

    pub create-Safe :
        (body : CreateBody) (gr : Option GovernedResource) (req : AgentRequest)
        → IsAdmission s asks req
        → Safe s asks (create s sse body labels gr req)
    unfolding create
    create-Safe body gr req a = Runs-bind (named-Admission body req a) (λ n.
        Runs-given (λ t admission.
          Runs-bind
            (Runs-attempt_invoke {Q = λ answer u. (v : Trace) × (s.on_create_request v n ≡ answer)}
              (create_request n) _ (λ u e. admission) (λ u e. (u, refl)))
            (λ answer. Runs-given (λ u made. created-Safe gr n made.0 answer made.1))))
