-- ===== src/Gateway/Samples.antt =====
-- A sample server, with one reviewer and one agent, and sample requests and resources.
use aip_k8s.Prelude.{ℕ, String, true, false, none, some, [], ◌∷◌, length}
use aip_k8s.Api.Policy.{GovernedResource, TrustRequirements}
use aip_k8s.Api.Request.{Phase, AgentRequest}
use aip_k8s.Api.Samples.{sample_request}
use aip_k8s.Effects.{ok, err, not_found}
use aip_k8s.Gateway.Server.{Server, HttpRequest, timed_out}

abbrev pub sample_server : AgentRequest → Server ℕ
sample_server req = record {
  auth_required = true;
  roles = record {
    agent_subs = "agent" ∷ [];
    reviewer_subs = "ann" ∷ [];
    admin_subs = [];
    agent_groups = [];
    reviewer_groups = [];
    admin_groups = [];
  };
  has_jwt_manager = true;
  require_governed_resource = true;
  unregistered_agent_policy = "allow";
  dedup_window = 0;
  registrations = none;
  glob_cache = λ t. [];
  compile = λ pattern. some (λ uri. true);
  is_status_condition_true = λ cs type. false;
  is_positive = λ x. true;
  parse_int = λ text. none;
  format_int = λ n. "0";
  status_json = λ x. none;
  ticks = λ t. 1;
  client_gone = λ t. false;
  retry_on_conflict = λ m. m;
  trim_space = λ x. x;
  quote = λ x. x;
  rune_count = λ x. 0;
  has_https_prefix = λ x. true;
  to_lower = λ c. c;
  sha256 = λ s. [];
  set_status_condition = λ t cs c. c ∷ cs;
  clock = λ t. length t;
  on_get_request = λ t r ns n. ok req;
  on_get_profile = λ t ns n. err not_found;
  on_get_policy = λ t ns n. err not_found;
  on_list_requests = λ t options. ok ([], "");
  on_list_audit_events = λ t ns. ok [];
  on_patch_object = λ t b n. ok n;
  on_patch_status = λ t b n. ok tt;
  on_patch_status_locked = λ t b n. ok tt;
  on_list_resources = λ t. ok [];
  on_create_request = λ t n. ok n;
  on_delete_request = λ t n. ok tt;
  on_fetch_credential = λ t p raw. ok "credential";
  on_watch_request = λ t ns n. ok ([], timed_out);
  on_write_event = λ t kind body. ok tt;
  on_flush = λ t. ok tt;
  on_mint_token = λ t a b c d. ok ("token", 0);
}

abbrev pub by : {B : Type 0} → String → B → HttpRequest B
by sub body = record {
  sub = sub;
  groups = [];
  issuer = "";
  raw_token = "";
  accepts_sse = false;
  name = "scale-api";
  namespace = "";
  body = some body;
}

abbrev pub pending_server : Server ℕ
pending_server = sample_server (sample_request Phase.pending)

abbrev pub sample_requirements : TrustRequirements
sample_requirements = record { min_trust_level = "Observer"; max_autonomy_level = "Advisor" }

abbrev pub sample_resource : String → String → GovernedResource
sample_resource name pattern = record {
  name = name;
  generation = 1;
  labels = [];
  context_fetcher = "";
  context_schema = none;
  soak_mode = false;
  uri_pattern = pattern;
  permitted_actions = "scale" ∷ [];
  permitted_agents = [];
  trust_requirements = some sample_requirements;
}
