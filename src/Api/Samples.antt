-- ===== src/Api/Samples.antt =====
-- Sample objects for the tests.
use aip_k8s.Prelude.{String, false, none, [], ◌∷◌}
use aip_k8s.Api.Policy.{Action, SafetyPolicy}
use aip_k8s.Api.Request.{Phase, Spec, AgentRequest}

abbrev pub sample_spec : Spec
sample_spec = record {
  agent_identity = "agent";
  action = "scale";
  target_uri = "k8s://prod/default/deployment/api";
  reason = "load";
  observe = false;
  cascade_model = none;
  human_approval = none;
  resource_ref = none;
  classification = "";
  dedup_key = "";
  model_source_trust = none;
  model_source_id = none;
  reasoning_trace = none;
  parameters = none;
  execution_mode = none;
  scope_bounds = none;
}

abbrev pub sample_request : Phase → AgentRequest
sample_request phase = record {
  name = "scale-api";
  generate_name = "";
  namespace = "default";
  labels = [];
  annotations = ("governance.aip.io/can-execute", "false") ∷ [];
  created = 0;
  spec = sample_spec;
  status = record {
    phase = phase;
    conditions = [];
    denial = none;
    evaluation_generation = 0;
    verification = none;
    provider_context = none;
    verdict = "";
    verdict_reason_code = "";
    verdict_note = "";
    verdict_by = "";
    verdict_at = none;
    resource_ref = none;
    result = none;
  };
}

abbrev pub sample_policy : String → Action → String → SafetyPolicy
sample_policy name action expression = record {
  name = name;
  selector = "";
  rules = record { name = "rule"; action = action; message = none; expression = expression } ∷ [];
  failure_mode = none;
}
