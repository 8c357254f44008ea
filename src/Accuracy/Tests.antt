-- ===== src/Accuracy/Tests.antt =====
-- The count of a first verdict, with accuracies in percent.
use aip_k8s.Prelude.{
  ℕ, ◌+◌, ◌-◌, ◌*◌, ◌/◌, String, ◌≡◌, refl, Option, none, some, List, [], ◌∷◌, ltb,
}
use aip_k8s.Api.Request.{Phase, AgentRequest}
use aip_k8s.Api.Samples.{sample_request}
use aip_k8s.Controller.Types.{Reader, cached, direct}
use aip_k8s.Effects.{Outcome, ok, err, not_found, is_not_found, pure, attempt, invoke, ◌>>=◌}
use aip_k8s.Accuracy.{
  AccuracySummary, Call, Cluster, patch_summary, run, reconcile, request_read, count_verdict,
  read_summary, summary_found, summary_made, patch_summary_m, counted, counted_if, remembered,
  latest, ratio,
}
use aip_k8s.Accuracy.Counts.{Counts}

abbrev graded_request : String → AgentRequest
graded_request name =
    let req = sample_request Phase.awaiting_verdict in
    record req {
      name = name;
      status = record req.status { verdict = "partial"; verdict_at = some 5 };
    }

abbrev empty_summary : AccuracySummary ℕ
empty_summary = record {
  name = "agent";
  namespace = "default";
  agent_identity = "agent";
  total_reviewed = 0;
  correct_count = 0;
  partial_count = 0;
  incorrect_count = 0;
  diagnostic_accuracy = none;
  last_updated_at = none;
  recent_verdicts = [];
}

-- The summary is not in the cache, and has no verdicts when it is read past it.
abbrev first_read : Reader → Outcome (AccuracySummary ℕ)
first_read cached = err not_found
first_read direct = ok empty_summary

abbrev sample_cluster : Cluster ℕ
sample_cluster = record {
  float = record {
    lt = ltb;
    add = λ a b. a + b;
    sub = λ a b. a - b;
    mul = λ a b. a * b / 100;
    div = λ a b. a * 100 / b;
    of_int = λ n. 100 * n;
    half = 50;
  };
  to_lower = λ ch. ch;
  sha256 = λ text. [];
  retry_on_conflict = λ m. m;
  on_get_request = λ t ns name. ok (graded_request name);
  on_get_summary = λ t reader ns name. first_read reader;
  on_create_summary = λ t s. ok tt;
  on_patch_summary = λ t b n. ok tt;
}

abbrev sample_queue : List (String × String)
sample_queue = ("default", "scale-api") ∷ ("default", "scale-db") ∷ []

-- The totals that are written, the latest first.
abbrev totals : List (Call ℕ) → List (ℕ × Option ℕ)
totals [] = []
totals (patch_summary b n ∷ t) = (n.total_reviewed, n.diagnostic_accuracy) ∷ totals t
totals (_ ∷ t) = totals t

-- Two reconciles that read the same summary write the same total.
count_lost : totals (run sample_cluster sample_queue []) ≡ (1, some 50) ∷ (1, some 50) ∷ []
unfolding run reconcile request_read count_verdict read_summary summary_found summary_made
    patch_summary_m counted counted_if remembered latest ratio is_not_found pure attempt invoke
    ◌>>=◌
count_lost = refl
