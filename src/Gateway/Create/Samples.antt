-- ===== src/Gateway/Create/Samples.antt =====
-- A server that lists one resource which requires trust, and the request of its agent.
use aip_k8s.Prelude.{ℕ, none, [], ◌∷◌}
use aip_k8s.Api.Request.{Phase}
use aip_k8s.Api.Samples.{sample_request}
use aip_k8s.Effects.{ok}
use aip_k8s.Gateway.Server.{Server}
use aip_k8s.Gateway.Samples.{sample_server, sample_resource}
use aip_k8s.Gateway.Create.Body.{CreateBody}

abbrev pub creating_server : Server ℕ
creating_server = record (sample_server (sample_request Phase.approved)) {
  on_list_resources = λ t. ok (sample_resource "api" "k8s://*" ∷ []);
  on_get_profile = λ t ns n. ok (record {
    name = n;
    namespace = ns;
    created = 0;
    agent_identity = "agent";
    trust_level = "Supervised";
    diagnostic_accuracy = none;
    recent_accuracy = none;
    total_reviewed = 0;
    total_executions = 0;
    success_rate = none;
    last_promoted_at = none;
    last_demoted_at = none;
    last_evaluated_at = none;
  });
}

abbrev pub sample_body : CreateBody
sample_body = record {
  agent_identity = "";
  action = "scale";
  target_uri = "k8s://prod";
  reason = "load";
  namespace = "";
  correlation_id = "";
  classification = "";
  dedup_key = "";
  cascade_model = none;
  reasoning_trace = none;
  parameters = "";
  execution_mode = none;
  scope_bounds = none;
}
