-- ===== src/Gateway/Create/Admitted.antt =====
-- `handleCreateAgentRequest` creates a request only as `IsAdmission` says.
use aip_k8s.Prelude.{
  String, Bool, true, false, not, ◌&&◌, Option, none, some, List, [], ◌∷◌, ◌≡◌, refl, ◌⊎◌, inl, inr,
  str_eq, eq_iff, contains, is_empty, lookup, insert, lookup-insert, has_value, arith, on_option,
  if◌then◌else◌, Bool-cases,
}
use aip_k8s.Api.Policy.{GovernedResource, TrustRequirements}
use aip_k8s.Api.Request.{AgentRequest, Phase}
use aip_k8s.Effects.{Outcome, ok, err, is_no_match}
use aip_k8s.Effects.Logic.{
  Runs-given, Runs-attempt_invoke, Runs-attempt_keep, Runs-bind, Runs-if, Runs-option, Keeps-pure,
}
use aip_k8s.Gateway.Match.Cached.{IsCacheOf}
use aip_k8s.Gateway.Match.Best.{IsMostSpecific, match_governed_resource-IsMostSpecific}
use aip_k8s.Gateway.Server.{Server, Caller, Trace, list_resources, create_request}
use aip_k8s.Gateway.Gate.{TrustGateResult, can_execute_key, evaluate_trust_gate}
use aip_k8s.Gateway.Gate.Quiet.{evaluate_trust_gate-Keeps}
use aip_k8s.Gateway.Gate.Rules.{evaluate_trust_gate-MeetsMinimum, evaluate_trust_gate-closed}
use aip_k8s.Gateway.Admission.{
  MayCreate, IsIdentity, WasListed, IsTrusted, IsPassed, IsGoverned, IsAdmission,
}
use aip_k8s.Gateway.Safety.{Allowed, Safe, answer-Safe, fail-Safe}
use aip_k8s.Gateway.Wait.Quiet.{Quiet, Quiet-Safe}
use aip_k8s.Gateway.Create.Body.{CreateBody}
use aip_k8s.Gateway.Create.{
  copied, gated, admitted, check_resource, with_resources, resources_listed, admission,
}
use aip_k8s.Gateway.Create.Filing.{denied_key, annotated, governed, denied_created, deny_action}
use aip_k8s.Gateway.Create.Safe.{mirror-Quiet, create-Safe}

lookup-copied :
    (k : String) (entries m : List (String × String))
    → lookup k (copied entries m) ≡ on_option (lookup k entries) (lookup k m) (λ v. some v)
unfolding copied
lookup-copied k [] m = refl
lookup-copied k ((j, v) ∷ entries) m = elim (Bool-cases (str_eq j k)) [
  | inl same ↦ rw (lookup-insert j k v (copied entries m), same) refl
  | inr other ↦ rw (lookup-insert j k v (copied entries m), other) (lookup-copied k entries m)
]

copied-has_value :
    (k : String) (entries m : List (String × String))
    → has_value entries k "false" ≡ true
    → has_value (copied entries m) k "false" ≡ true
copied-has_value k entries m h = ground (arith, lookup-copied k entries m, eq_iff "" "false")

module _ {F : Type 0} (s : Server F) (asks : Caller → Type 0) where
  module _ (who : Caller) (body : CreateBody) where
    -- A request as it was built from the body, perhaps annotated.
    pub record IsFresh (req : AgentRequest) : Type 0 where
      pub target : req.spec.target_uri ≡ body.target_uri
      pub action : req.spec.action ≡ body.action
      pub observe : req.spec.observe ≡ false
      pub new : req.status.phase ≡ Phase.unset
      pub identity : IsIdentity s who req.spec.agent_identity

  module _ (who : Caller) (may : MayCreate s asks who) (sse : Bool) (body : CreateBody)
      (labels : List (String × String)) where
    abbrev Fresh : AgentRequest → Type 0
    Fresh = IsFresh who body

    module _ (items : List GovernedResource) (listed : WasListed s items) where
      IsAdmission-of : (n : AgentRequest) → Fresh n → IsGoverned s n items → IsAdmission s asks n
      IsAdmission-of n f g = record {
        who = who;
        agent = may;
        identity = f.identity;
        items = items;
        listed = listed;
        governed = g;
        new = f.new;
      }

      module _ (gr : GovernedResource) (req : AgentRequest) (fresh : Fresh req)
          (best : IsMostSpecific s.compile body.target_uri "" items (some gr))
          (agents : (is_empty gr.permitted_agents ≡ true)
            ⊎ (contains gr.permitted_agents req.spec.agent_identity ≡ true)) where
        -- The request with the reference and other annotations.
        marked : List (String × String) → AgentRequest
        marked annotations = record req {
          annotations = annotations;
          spec = record req.spec {
            resource_ref = some (record { name = gr.name; generation = gr.generation });
          };
        }

        marked-IsAdmission :
            (annotations : List (String × String))
            → IsPassed s (marked annotations) gr
            → IsAdmission s asks (marked annotations)
        unfolding marked
        marked-IsAdmission annotations passed =
            IsAdmission-of (marked annotations)
              (record {
                target = fresh.target;
                action = fresh.action;
                observe = fresh.observe;
                new = fresh.new;
                identity = fresh.identity;
              })
              (inr (gr, rw fresh.target best, refl, agents, passed))

        passed-IsAdmission :
            (annotations : List (String × String))
            → contains gr.permitted_actions body.action ≡ true
            → (gr.trust_requirements ≡ none)
              ⊎ ((tr : TrustRequirements) × (gr.trust_requirements ≡ some tr)
                  × IsTrusted s (marked annotations) tr)
            → IsAdmission s asks (marked annotations)
        passed-IsAdmission annotations permitted trusted =
            marked-IsAdmission annotations
              (inl (unfold marked in rw fresh.action permitted, trusted))

        deny_action-Safe :
            contains gr.permitted_actions body.action ≡ false → Safe s asks (deny_action s gr req)
        unfolding deny_action denied_created annotated governed marked
        deny_action-Safe refused =
            Runs-bind
              (Runs-attempt_invoke
                {Q = λ answer u. (v : Trace) × (s.on_create_request v _ ≡ answer)}
                (create_request _) _
                (λ t e.
                  marked-IsAdmission (insert denied_key "ACTION_NOT_PERMITTED" req.annotations)
                    (inr (rw fresh.action refused, marked_denied)))
                (λ t e. (t, refl)))
              (λ answer. Runs-given (λ t made.
                Runs-bind (Quiet-Safe s asks (created-Quiet answer made.0 made.1))
                  (λ _. fail-Safe s asks _ _)))
          where
            marked_denied :
                has_value
                  (insert denied_key "ACTION_NOT_PERMITTED" req.annotations)
                  denied_key
                  "ACTION_NOT_PERMITTED"
                ≡ true
            marked_denied = ground (
              arith,
              lookup-insert denied_key denied_key "ACTION_NOT_PERMITTED" req.annotations,
              eq_iff denied_key denied_key,
              eq_iff "ACTION_NOT_PERMITTED" "ACTION_NOT_PERMITTED",
            )

            created-Quiet :
                (answer : Outcome AgentRequest) (v : Trace)
                → s.on_create_request v
                    (annotated denied_key "ACTION_NOT_PERMITTED" (governed (some gr) req))
                  ≡ answer
                → Quiet s asks (denied_created s gr answer)
            created-Quiet (ok made) v e = mirror-Quiet s asks (some gr) _ made v e
            created-Quiet (err x) v e = Keeps-pure _

        gated-Safe :
            (tr : TrustRequirements)
            → gr.trust_requirements ≡ some tr
            → contains gr.permitted_actions body.action ≡ true
            → (answer : Outcome TrustGateResult) (t : Trace)
            → (evaluate_trust_gate s req.namespace req.spec.agent_identity
                (if req.spec.observe then "observe" else "")
                gr
                t).0
              ≡ answer
            → Safe s asks (gated s sse body labels (some gr) (governed (some gr) req) answer)
        unfolding gated governed marked
        gated-Safe tr required permitted (err x) t e = answer-Safe s asks _
        gated-Safe tr required permitted (ok result) t e =
            Runs-if result.rejected (λ rejected. fail-Safe s asks _ _)
              (λ kept.
                create-Safe s asks sse labels body (some gr)
                  (marked (copied result.annotations req.annotations))
                  (passed-IsAdmission (copied result.annotations req.annotations) permitted
                    (inr (tr, required, trusted kept))))
          where
            acting : str_eq (if req.spec.observe then "observe" else "") "observe" ≡ false
            acting = rw fresh.observe (ground (arith, eq_iff "" "observe"))

            trusted :
                result.rejected ≡ false
                → IsTrusted s (marked (copied result.annotations req.annotations)) tr
            trusted kept = (
              t,
              evaluate_trust_gate-MeetsMinimum s req.namespace req.spec.agent_identity t _ gr tr
                  result required acting e kept,
              elim (evaluate_trust_gate-closed s req.namespace req.spec.agent_identity t _ gr tr
                  result required acting e kept) [
                    | inl closed ↦ inl (copied-has_value can_execute_key _ req.annotations closed)
                    | inr granted ↦ inr granted
                  ],
            )

        admitted-Safe :
            contains gr.permitted_actions body.action ≡ true
            → Safe s asks (admitted s sse body labels (some gr) req)
        unfolding admitted governed marked
        admitted-Safe permitted =
            Runs-option gr.trust_requirements
              (λ free.
                create-Safe s asks sse labels body (some gr) (marked req.annotations)
                  (passed-IsAdmission req.annotations permitted (inl free)))
              (λ tr required.
                Runs-bind
                  (Runs-attempt_keep (
                    evaluate_trust_gate-Keeps s (Allowed s asks) req.namespace
                      req.spec.agent_identity (λ t. tt) (λ t. tt) _ gr))
                  (λ answer.
                    Runs-given (λ t gate. gated-Safe tr required permitted answer gate.0 gate.1)))

        check_resource-Safe : Safe s asks (
            if not (contains gr.permitted_actions body.action)
            then deny_action s gr req
            else admitted s sse body labels (some gr) req)
        check_resource-Safe = elim (Bool-cases (contains gr.permitted_actions body.action)) [
          | inl permitted ↦ rw permitted (admitted-Safe permitted)
          | inr refused ↦ rw refused (deny_action-Safe refused)
        ]

      module _ (caches : (t : Trace) → IsCacheOf s.compile (s.glob_cache t)) (req : AgentRequest)
          (fresh : Fresh req) where
        governing-Safe :
            (found : Option GovernedResource)
            → IsMostSpecific s.compile body.target_uri "" items found
            → Safe s asks (check_resource s sse body labels req found)
        unfolding check_resource
        governing-Safe none best = fail-Safe s asks _ _
        governing-Safe (some gr) best =
            Runs-if
              (not (is_empty gr.permitted_agents)
                && not (contains gr.permitted_agents req.spec.agent_identity))
              (λ e. fail-Safe s asks _ _)
              (λ e. check_resource-Safe gr req fresh best (ground (arith, e)))

        with_resources-Safe : Safe s asks (with_resources s sse body labels req items)
        unfolding with_resources admitted
        with_resources-Safe =
            Runs-if (is_empty items && not s.require_governed_resource)
              (λ e. create-Safe s asks sse labels body none req (
                IsAdmission-of req fresh
                  (inl (both_true (is_empty items) s.require_governed_resource e))))
              (λ e.
                Runs-bind {Q = λ cache t. IsCacheOf s.compile cache}
                  (record { at = λ t h e. (h, caches t) })
                  (λ cache. Runs-given (λ t valid.
                    governing-Safe _
                      (match_governed_resource-IsMostSpecific s.compile body.target_uri "" items
                        cache valid).0)))
          where
            both_true : (a b : Bool) → (a && not b) ≡ true → (a ≡ true) × (b ≡ false)
            both_true true false h = (refl, refl)
            both_true true true h = absurd (cc h)
            both_true false b h = absurd (cc h)

    module _ (caches : (t : Trace) → IsCacheOf s.compile (s.glob_cache t)) (req : AgentRequest)
        (fresh : Fresh req) where
      resources_listed-Safe :
          (answer : Outcome (List GovernedResource)) (t : Trace)
          → s.on_list_resources t ≡ answer
          → Safe s asks (resources_listed s sse body labels req answer)
      unfolding resources_listed
      resources_listed-Safe (ok items) t e = with_resources-Safe items (t, inl e) caches req fresh
      resources_listed-Safe (err x) t e =
          Runs-if (is_no_match x)
            (λ missing. with_resources-Safe [] (t, inr (x, e, missing, refl)) caches req fresh)
            (λ failed. answer-Safe s asks _)

      pub admission-Safe : Safe s asks (admission s sse body labels req)
      unfolding admission
      admission-Safe =
          Runs-bind
            (Runs-attempt_invoke {Q = λ answer u. (t : Trace) × (s.on_list_resources t ≡ answer)}
              list_resources _ (λ t e. tt) (λ t e. (t, refl)))
            (λ answer. Runs-given (λ u listed. resources_listed-Safe answer listed.0 listed.1))
