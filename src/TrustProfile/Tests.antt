-- ===== src/TrustProfile/Tests.antt =====
-- Trust levels on a sample policy, with accuracies in percent.
use aip_k8s.Prelude.{
  ℕ, ◌+◌, ◌-◌, ◌*◌, ◌/◌, ◌≤◌, ◌<◌, String, true, ◌≡◌, refl, ◌⊎◌, str_eq, is_empty, Option, none,
  some, List, [], ◌∷◌, ltb, length, arith,
}
use aip_k8s.Api.Trust.{observer_name, GraduationLevel, GraduationPolicy, TrustProfile}
use aip_k8s.Api.Samples.{sample_request}
use aip_k8s.Api.Request.{Phase}
use aip_k8s.Controller.Types.{AuditRecord}
use aip_k8s.Effects.{ok, err, not_found}
use aip_k8s.Effects.Logic.{Hist}
use aip_k8s.TrustProfile.{
  Float, verdict_entries, first_entries, tally, accuracy_of, rolling_accuracy, level_meets,
  last_met, resolve_trust_level,
}
use aip_k8s.TrustProfile.Levels.{NoneMet, IsHighest, resolve_trust_level-IsHighest}
use aip_k8s.TrustProfile.Monotone.{AtOrAfter, IsAtLeast, last_met-monotone}
use aip_k8s.TrustProfile.Counts.{rolling_accuracy_bounds}
use aip_k8s.TrustProfile.Cluster.{Cluster}
use aip_k8s.TrustProfile.Reconcile.Demotion.{Lowers, run, run-Lowers}

abbrev percent : Float ℕ
percent = record {
  lt = ltb;
  add = λ a b. a + b;
  sub = λ a b. a - b;
  mul = λ a b. a * b / 100;
  div = λ a b. a / b;
  of_int = λ n. 100 * n;
  half = 50;
}

abbrev sample_level : String → ℕ → ℕ → GraduationLevel ℕ
sample_level name accuracy executed = record {
  name = name;
  can_execute = true;
  requires_human_approval = true;
  accuracy = some (record { min = some accuracy; max = some 70; demotion_buffer = some 5 });
  executions_min = some executed;
  executions_max = some 1;
}

abbrev sample_policy : GraduationPolicy ℕ
sample_policy = record {
  name = "default";
  evaluation_count = 10;
  levels =
      sample_level observer_name 0 0
      ∷ sample_level "Advisor" 60 1
      ∷ sample_level "Trusted" 90 3
      ∷ [];
  accuracy_drop_threshold = 10;
  window_size = 5;
  grace_period = "1h";
}

abbrev sample_profile : TrustProfile ℕ
sample_profile = record {
  name = "agent-1";
  namespace = "default";
  created = 0;
  agent_identity = "agent";
  trust_level = "Trusted";
  diagnostic_accuracy = none;
  recent_accuracy = none;
  total_reviewed = 0;
  total_executions = 0;
  success_rate = none;
  last_promoted_at = some 100;
  last_demoted_at = none;
  last_evaluated_at = none;
}

abbrev hour : String → Option ℕ
hour period = some 3600

resolve_trust_level-IsHighest_example :
    (((str_eq sample_policy.name "" ≡ true) ⊎ (is_empty sample_policy.levels ≡ true))
      × (resolve_trust_level percent 70 2 (some sample_policy) ≡ observer_name))
    ⊎ (NoneMet percent 70 2 sample_policy.levels
        × (resolve_trust_level percent 70 2 (some sample_policy) ≡ observer_name))
    ⊎ IsHighest percent 70 2 sample_policy.levels
        (resolve_trust_level percent 70 2 (some sample_policy))
resolve_trust_level-IsHighest_example = resolve_trust_level-IsHighest percent 70 2 sample_policy

found_advisor : last_met percent 70 2 sample_policy.levels ≡ some "Advisor"
unfolding last_met level_meets
found_advisor = refl

more_accurate : IsAtLeast percent 95 70
more_accurate m = ground arith

last_met-monotone_example :
    (y : String) × (last_met percent 95 4 sample_policy.levels ≡ some y)
    × AtOrAfter percent sample_policy.levels "Advisor" y
last_met-monotone_example =
    last_met-monotone percent 70 95 2 4 more_accurate (omega arith) sample_policy.levels "Advisor"
      found_advisor

abbrev sample_verdict : String → ℕ → AuditRecord
sample_verdict verdict time = record {
  name = "verdict";
  namespace = "default";
  labels = [];
  owners = [];
  timestamp = time;
  agent_identity = "agent";
  agent_request_ref = "scale-api";
  event = "verdict.submitted";
  action = "scale";
  target_uri = "";
  reason = "";
  policy_evaluations = [];
  phase_transition = none;
  annotations = ("verdict", verdict) ∷ [];
  details = none;
}

abbrev sample_verdicts : List AuditRecord
sample_verdicts =
    sample_verdict "correct" 3 ∷ sample_verdict "incorrect" 2 ∷ sample_verdict "partial" 1 ∷ []

two_verdicts : rolling_accuracy percent (λ es. es) sample_verdicts 2 ≡ some (0, 2)
unfolding rolling_accuracy accuracy_of tally first_entries verdict_entries
two_verdicts = refl

rolling_accuracy_bounds_example : (0 < 2) × (2 ≤ 2) × (2 ≤ length (verdict_entries sample_verdicts))
rolling_accuracy_bounds_example =
    rolling_accuracy_bounds percent (λ es. es) (λ es. refl) sample_verdicts 2 0 2 two_verdicts

abbrev sample_cluster : Cluster ℕ
sample_cluster = record {
  float = percent;
  zero_float = 0;
  parse_duration = hour;
  sort_newest = λ es. es;
  is_status_condition_true = λ cs type. true;
  to_lower = λ c. c;
  sha256 = λ s. [];
  controller_reference = λ p a. some a;
  clock = λ t. 5000;
  on_get_profile = λ t r ns n. ok sample_profile;
  on_get_summary = λ t r ns n. err not_found;
  on_get_policy = λ t ns. ok sample_policy;
  on_list_registrations = λ t ns key. ok [];
  on_list_requests = λ t ns label. ok (sample_request Phase.completed ∷ []);
  on_list_audits = λ t ns agent. ok sample_verdicts;
  on_create_profile = λ t p. ok tt;
  on_patch_profile = λ t b n. ok tt;
  on_create_audit = λ t a. ok tt;
}

run-Lowers_example :
    Hist (Lowers sample_cluster) (run sample_cluster (("agent-1", "default") ∷ []) [])
run-Lowers_example = run-Lowers sample_cluster (("agent-1", "default") ∷ [])
