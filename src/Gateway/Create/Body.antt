-- ===== src/Gateway/Create/Body.antt =====
-- The body of a POST to /agent-requests, and the AgentRequest that is made from it:
-- createAgentRequestBody, buildCascadeModel and buildReasoningTrace of cmd/gateway/server.go.
use aip_k8s.Prelude.{
  String, false, ◌||◌, Option, none, some, List, [], ◌∷◌, ◌++◌, str_eq, str_append, is_empty,
  if◌then◌else◌, on_option,
}
use aip_k8s.Prelude.Chars.{text_of}
use aip_k8s.Api.Naming.{sanitize_dns_segment}
use aip_k8s.Api.Request.{AffectedTarget, ReasoningTrace, Phase, AgentRequest, Status}
use aip_k8s.Gateway.Server.{Server, namespace_or_default, profile_name}
use aip_k8s.Gateway.Names.{sanitize_label_value, normalize_classification}

pub record CascadeBody : Type 0 where
  pub affected_targets : List AffectedTarget
  pub model_source_trust : String
  pub model_source_id : String

-- Numbers are kept as their JSON text.
pub record TraceBody : Type 0 where
  pub confidence_score : String
  pub component_confidence : List (String × String)
  pub trace_reference : String
  pub alternatives : List String

pub record CreateBody : Type 0 where
  pub agent_identity : String
  pub action : String
  pub target_uri : String
  pub reason : String
  pub namespace : String
  pub correlation_id : String
  pub classification : String
  pub dedup_key : String
  pub cascade_model : Option CascadeBody
  pub reasoning_trace : Option TraceBody
  pub parameters : String  -- raw JSON
  pub execution_mode : Option String
  pub scope_bounds : Option String  -- JSON

-- `if s != "" { p = &s }`
abbrev pub given : String → Option String
given s = if str_eq s "" then none else some s

-- The cascade model of a body, where it has targets.
pub cascade_of : CreateBody → Option CascadeBody
cascade_of body =
    on_option body.cascade_model none (λ m. if is_empty m.affected_targets then none else some m)

module _ {F : Type 0} (s : Server F) where
  pub build_reasoning_trace : TraceBody → ReasoningTrace
  build_reasoning_trace trace = record {
    confidence_score =
        if s.is_positive trace.confidence_score then some trace.confidence_score else none;
    component_confidence = trace.component_confidence;
    trace_reference = given trace.trace_reference;
    alternatives = trace.alternatives;
  }

  -- The labels of the request.
  pub labels_of : String → CreateBody → List (String × String)
  labels_of agent body =
      ("aip.io/agentIdentity", sanitize_label_value agent)
      ∷ ("aip.io/profileName", profile_name s agent)
      ∷ ((if str_eq body.correlation_id ""
            then []
            else ("aip.io/correlationID", sanitize_label_value body.correlation_id) ∷ [])
          ++ (if str_eq body.classification ""
              then []
              else ("aip.io/classification", sanitize_label_value body.classification) ∷ []))

  -- A status that has not been written.
  abbrev pub empty_status : Status
  empty_status = record {
    phase = Phase.unset;
    conditions = [];
    denial = none;
    evaluation_generation = 0;
    verification = none;
    provider_context = none;
    verdict = "";
    verdict_reason_code = "";
    verdict_note = "";
    verdict_by = "";
    verdict_at = none;
    resource_ref = none;
    result = none;
  }

  unfoldable pub request_of : String → CreateBody → AgentRequest
  request_of agent body = record {
    name = "";
    generate_name = str_append (text_of (sanitize_dns_segment s.to_lower agent 57)) "-";
    namespace = namespace_or_default body.namespace;
    labels = labels_of agent body;
    annotations = [];
    created = 0;
    spec = record {
      agent_identity = agent;
      action = body.action;
      target_uri = body.target_uri;
      reason = body.reason;
      observe = false;
      cascade_model = on_option (cascade_of body) none (λ m. some m.affected_targets);
      human_approval = none;
      resource_ref = none;
      classification = normalize_classification s.to_lower body.classification;
      dedup_key = "";
      model_source_trust = on_option (cascade_of body) none (λ m. given m.model_source_trust);
      model_source_id = on_option (cascade_of body) none (λ m. given m.model_source_id);
      reasoning_trace = on_option body.reasoning_trace none (λ t. some (build_reasoning_trace t));
      parameters =
          if str_eq body.parameters "" || str_eq body.parameters "null"
          then none
          else some body.parameters;
      execution_mode = body.execution_mode;
      scope_bounds = body.scope_bounds;
    };
    status = empty_status;
  }
