-- ===== src/Collection/Tests.antt =====
-- A run of the collector over a completed request with an audit record and a pending request.
use aip_k8s.Prelude.{true, false, ◌≡◌, refl, inl, none, [], ◌∷◌, str_eq, arith}
use aip_k8s.Api.Request.{Phase}
use aip_k8s.Api.Samples.{sample_request}
use aip_k8s.Controller.Types.{AuditRecord}
use aip_k8s.Effects.{Outcome, ok, wrap_error, ◌>>=◌}
use aip_k8s.Effects.Logic.{Hist}
use aip_k8s.Collection.{
  Worker, Page, delete_audit, delete_request, wait_limiter, read_clock, list_requests, list_audits,
  evaluated_inc, deleted_inc, is_terminal, terminal_count, delete_failed, tick, now,
  list_requests_m, list_audits_m, delete_audits, audit_pages, request_deleted, collect, too_young,
  process_request, process_items, request_pages, valve_closed, scan, run,
}
use aip_k8s.Collection.Safe.{Deletes, run-Deletes}
use aip_k8s.Collection.Ends.{ListsEnd, IsEnded, run-IsEnded}

abbrev sample_record : AuditRecord
sample_record = record {
  name = "scale-api-created";
  namespace = "default";
  labels = [];
  owners = [];
  timestamp = 0;
  agent_identity = "agent";
  agent_request_ref = "scale-api";
  event = "request.created";
  action = "scale";
  target_uri = "";
  reason = "";
  policy_evaluations = [];
  phase_transition = none;
  annotations = [];
  details = none;
}

abbrev sample_worker : Worker
sample_worker = record {
  config = record {
    enabled = true;
    interval = 3600;
    dry_run = false;
    hard_ttl = 5;
    page_size = 500;
    delete_rate_per_sec = 100;
    safety_min_count = 1;
  };
  clock = λ t. 7;
  on_list_requests = λ t limit token. ok (record {
    items = sample_request Phase.completed ∷ sample_request Phase.pending ∷ [];
    continue_token = "";
  });
  on_list_audits =
      λ t ns name limit token. ok (record { items = sample_record ∷ []; continue_token = "" });
  on_wait = λ t. ok tt;
  on_delete_audit = λ t a. ok tt;
  on_delete_request = λ t ar. ok tt;
}

-- The completed request is deleted after its record; the pending one is only counted.
run_deletes :
    (run sample_worker 1 1 []).1
    ≡ evaluated_inc
      ∷ deleted_inc
      ∷ delete_request (sample_request Phase.completed)
      ∷ delete_audit sample_record
      ∷ list_audits "default" "scale-api" 500 ""
      ∷ wait_limiter
      ∷ read_clock
      ∷ evaluated_inc
      ∷ list_requests 500 ""
      ∷ list_requests 2 ""
      ∷ []
unfolding run scan valve_closed request_pages process_items process_request too_young collect
    request_deleted audit_pages delete_audits list_audits_m list_requests_m now tick delete_failed
    terminal_count is_terminal wrap_error ◌>>=◌
run_deletes = refl

run-Deletes_example : Hist (Deletes sample_worker) (run sample_worker 1 1 []).1
run-Deletes_example = run-Deletes sample_worker 1 1

same_token :
    {A : Type 0} {p q : Page A}
    → ◌≡◌ {A = Outcome (Page A)} (ok p) (ok q)
    → str_eq p.continue_token "" ≡ true
    → str_eq q.continue_token "" ≡ true
same_token {p = p} {q = q} e h = let same : p ≡ q = cc in rw (← same) h

sample_ends : ListsEnd sample_worker (λ token. 0) (λ token. 0)
sample_ends = record {
  requests_fall = λ t limit token page e. inl (same_token e refl);
  audits_fall = λ t ns name limit token page e. inl (same_token e refl);
}

run-IsEnded_example : IsEnded sample_worker (run sample_worker 1 1 []).0
run-IsEnded_example = run-IsEnded sample_worker sample_ends 1 (omega arith) 1 (omega arith) []
