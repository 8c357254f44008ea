-- ===== src/Accuracy.antt =====
-- internal/controller/accuracy_controller.go: a verdict on a request is counted in the
-- DiagnosticAccuracySummary of its agent.
pub mod Counts
mod Tests
use aip_k8s.Prelude.{
  ℕ, zero, suc, ◌-◌, String, Option, none, some, List, [], ◌∷◌, ◌++◌, str_eq, ltb, length, contains,
  if◌then◌else◌,
}
use aip_k8s.Prelude.Chars.{Char}
use aip_k8s.Api.Naming.{profile_name_for_agent}
use aip_k8s.Api.Request.{AgentRequest}
use aip_k8s.Controller.Types.{Reader, cached, direct}
use aip_k8s.Effects.{
  Outcome, ok, err, is_not_found, is_already_exists, Act, pure, raise, attempt, invoke, ◌>>=◌, ◌>>◌,
}
use aip_k8s.TrustProfile.{Float}

-- DiagnosticAccuracySummary
pub record AccuracySummary (F : Type 0) : Type 0 where
  pub name : String
  pub namespace : String
  pub agent_identity : String
  pub total_reviewed : ℕ
  pub correct_count : ℕ
  pub partial_count : ℕ
  pub incorrect_count : ℕ
  pub diagnostic_accuracy : Option F
  pub last_updated_at : Option ℕ
  pub recent_verdicts : List String

module _ (F : Type 0) where
  pub data Call : Type 0 where
    get_request : String → String → Call  -- a namespace and a name
    get_summary : Reader → String → String → Call
    create_summary : AccuracySummary F → Call
    patch_summary : AccuracySummary F → AccuracySummary F → Call  -- the base and the object

  abbrev pub Trace : Type 0
  Trace = List Call

  abbrev pub M : Type 0 → Type 0
  M = Act Call

  -- DiagnosticAccuracyReconciler, with the answers of the cluster.
  pub record Cluster : Type 0 where
    pub float : Float F
    pub to_lower : Char → Char  -- unicode.ToLower
    pub sha256 : String → List ℕ
    pub retry_on_conflict : M (Unit {0}) → M (Unit {0})
    pub on_get_request : Trace → String → String → Outcome AgentRequest
    pub on_get_summary : Trace → Reader → String → String → Outcome (AccuracySummary F)
    pub on_create_summary : Trace → AccuracySummary F → Outcome (Unit {0})
    pub on_patch_summary : Trace → AccuracySummary F → AccuracySummary F → Outcome (Unit {0})

-- The reason codes of verdicts that do not affect the accuracy.
abbrev pub uncounted_reasons : List String
uncounted_reasons = "bad_timing" ∷ "scope_too_broad" ∷ "precautionary" ∷ "policy_block" ∷ []

-- `xs[k:]`
pub dropped : ℕ → List String → List String
dropped k [] = []
dropped zero (x ∷ xs) = x ∷ xs
dropped (suc k) (x ∷ xs) = dropped k xs

-- The names of the last 100 requests.
pub remembered : List String → String → List String
remembered names name =
    let all = names ++ name ∷ [] in
    if ltb 100 (length all) then dropped (length all - 100) all else all

-- The later of a verdict's time and the last update.
latest : Option ℕ → Option ℕ → Option ℕ
latest none last = last
latest (some at) none = some at
latest (some at) (some last) = if ltb last at then some at else some last

-- `n++` where the verdict is `kind`
pub counted_if : String → String → ℕ → ℕ
counted_if kind verdict n = if str_eq verdict kind then suc n else n

module _ {F : Type 0} (c : Cluster F) where
  pub ratio : ℕ → ℕ → ℕ → F
  ratio correct partials total =
      let f = c.float in
      f.div (f.add (f.of_int correct) (f.mul f.half (f.of_int partials))) (f.of_int total)

  -- The summary with the verdict of the request counted.
  pub counted : AgentRequest → AccuracySummary F → AccuracySummary F
  counted req summary =
      let v = req.status.verdict in
      let correct = counted_if "correct" v summary.correct_count in
      let partials = counted_if "partial" v summary.partial_count in
      let total = suc summary.total_reviewed in
      record summary {
        total_reviewed = total;
        correct_count = correct;
        partial_count = partials;
        incorrect_count = counted_if "incorrect" v summary.incorrect_count;
        diagnostic_accuracy =
            if ltb 0 total
            then some (ratio correct partials total)
            else summary.diagnostic_accuracy;
        last_updated_at = latest req.status.verdict_at summary.last_updated_at;
        recent_verdicts = remembered summary.recent_verdicts req.name;
      }

  summary_of : AgentRequest → AccuracySummary F
  summary_of req = record {
    name = profile_name_for_agent c.to_lower c.sha256 req.spec.agent_identity;
    namespace = req.namespace;
    agent_identity = req.spec.agent_identity;
    total_reviewed = 0;
    correct_count = 0;
    partial_count = 0;
    incorrect_count = 0;
    diagnostic_accuracy = none;
    last_updated_at = none;
    recent_verdicts = [];
  }

  read_summary : Reader → AgentRequest → M F (AccuracySummary F)
  read_summary reader req =
      let name = profile_name_for_agent c.to_lower c.sha256 req.spec.agent_identity in
      invoke (get_summary reader req.namespace name)
        (λ t. c.on_get_summary t reader req.namespace name)

  -- After the creation, and where another reconcile has created it, the summary is read past the
  -- cache.
  summary_made : AgentRequest → Outcome (Unit {0}) → M F (AccuracySummary F)
  summary_made req (ok _) = read_summary direct req
  summary_made req (err e) = if is_already_exists e then read_summary direct req else raise e

  summary_found : AgentRequest → Outcome (AccuracySummary F) → M F (AccuracySummary F)
  summary_found req (ok summary) = pure summary
  summary_found req (err e) =
      if is_not_found e
      then (do
        made ←
            attempt (
              invoke (create_summary (summary_of req))
                (λ t. c.on_create_summary t (summary_of req)))
        summary_made req made)
      else raise e

  patch_summary_m : AccuracySummary F → AccuracySummary F → M F (Unit {0})
  patch_summary_m base n = invoke (patch_summary base n) (λ t. c.on_patch_summary t base n)

  -- The function that RetryOnConflict calls.
  count_verdict : AgentRequest → M F (Unit {0})
  count_verdict req = do
    read ← attempt (read_summary cached req)
    summary ← summary_found req read
    if contains summary.recent_verdicts req.name
        then pure tt
        else patch_summary_m summary (counted req summary)

  request_read : Outcome AgentRequest → M F (Unit {0})
  request_read (err e) = if is_not_found e then pure tt else raise e
  request_read (ok req) =
      if str_eq req.status.verdict ""
      then pure tt
      else (if contains uncounted_reasons req.status.verdict_reason_code
          then pure tt
          else c.retry_on_conflict (count_verdict req))

  pub reconcile : String → String → M F (Unit {0})
  reconcile ns name = do
    read ← attempt (invoke (get_request ns name) (λ t. c.on_get_request t ns name))
    request_read read

  -- The worker's loop over the namespaces and names that the queue delivers.
  pub run : List (String × String) → Trace F → Trace F
  run [] t = t
  run ((ns, name) ∷ queue) t = run queue (reconcile ns name t).1
