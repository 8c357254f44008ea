-- ===== src/Controller/Samples.antt =====
-- A small cluster, for runs of the reconciler.
use aip_k8s.Prelude.{
  ◌≡◌, refl, String, Bool, true, false, none, some, List, [], ◌∷◌, any, ◌&&◌, str_eq,
}
use aip_k8s.Api.Policy.{allow}
use aip_k8s.Api.Request.{AgentRequest, Condition}
use aip_k8s.Controller.Types.{ok, err, not_found, Trace, patch_status, Lease, pos}
use aip_k8s.Controller.Env.{Env, fetch_failed, valid}
use aip_k8s.Controller.Admission.Safe.{Answers}

-- The request as the last status patch left it.
abbrev pub stored : AgentRequest → Trace → AgentRequest
stored r [] = r
stored r (patch_status b n ∷ t) = n
stored r (_ ∷ t) = stored r t

abbrev pub has_true : List Condition → String → Bool
has_true cs type = any (λ (c : Condition). str_eq c.type type && c.is_true) cs

-- A lease of the sample request.
abbrev pub sample_lease : Lease
sample_lease = record {
  name = "lease";
  namespace = "default";
  labels = [];
  holder_identity = some "agent/scale-api";
  duration_seconds = some (pos 1);
  acquire_time = some 0;
  renew_time = some 0;
}

-- A cluster with one request, in which every write succeeds and the evaluator answers Allow.
abbrev pub cluster : AgentRequest → Env
cluster req = record {
  ops_lock_duration = 0;
  lock_wait_duration = 0;
  approved_timeout = 0;
  has_api_reader = true;
  has_target_fetcher = false;
  has_github_fetcher = false;
  evaluate =
      λ r ps c cs. ok (record { action = allow; code = ""; message = ""; policy_results = [] });
  clock = λ t. 0;
  on_get_request = λ t r n ns. ok (stored req t);
  on_get_resource = λ t r n. err not_found;
  on_get_lease = λ t r n ns. ok sample_lease;
  on_list_policies = λ t r ns. ok [];
  on_list_audits = λ t ns n. ok [];
  on_patch_status = λ t b n. ok n;
  on_create_lease = λ t l. ok tt;
  on_patch_lease = λ t b n. ok tt;
  on_delete_lease = λ t l. ok tt;
  on_create_audit = λ t a. ok tt;
  on_patch_audit = λ t b a. ok tt;
  on_fetch_target = λ t uri ns. fetch_failed none;
  on_fetch_provider = λ t f uri. err not_found;
  set_status_condition = λ t cs c. c ∷ cs;
  remove_status_condition = λ cs type. cs;
  find_status_condition = λ cs type. none;
  is_status_condition_true = has_true;
  selector_matches = λ s ls. some true;
  controller_reference = λ r a. some a;
  check_schema = λ s j. valid;
  sha256_hex = λ s. s;
  marshal_result = λ r. some "";
  target_name = λ uri. uri;
}

abbrev pub queue : List (String × String)
queue = ("scale-api", "default") ∷ ("scale-api", "default") ∷ []

pub cluster-Answers : (req : AgentRequest) → Answers (cluster req)
cluster-Answers req t b n r q = let e : n ≡ r = cc in rw e (refl, refl)
