-- ===== src/TrustProfile.antt =====
-- internal/controller/agenttrustprofile_controller.go: the trust level of an agent, from its verdicts
-- and executions. `F` and its operations stand for float64. Log lines are left out.
pub mod Cluster
pub mod Bootstrap
pub mod Reconcile
pub mod Limits
pub mod Levels
pub mod Monotone
pub mod Counts
mod Tests
use aip_k8s.Prelude.{
  ℕ, zero, suc, ◌+◌, String, Bool, true, false, not, ◌&&◌, ◌||◌, Option, none, some, List, [], ◌∷◌,
  str_eq, ltb, ◌==◌, contains, lookup, is_empty, deref_or, if◌then◌else◌, on_option,
}
use aip_k8s.Api.Request.{Condition, AgentRequest, phase_name}
use aip_k8s.Api.Trust.{
  trust_level_rank, rank_lt, observer_name, GraduationLevel, GraduationPolicy, TrustProfile,
}
use aip_k8s.Controller.Types.{AuditRecord}
use aip_k8s.Effects.{◌>>=◌, ◌>>◌}

pub record Float (F : Type 0) : Type 0 where
  pub lt : F → F → Bool
  pub add : F → F → F
  pub sub : F → F → F
  pub mul : F → F → F
  pub div : F → F → F
  pub of_int : ℕ → F
  pub half : F  -- 0.5

-- DiagnosticAccuracySummary: the fields that are read.
pub record Summary (F : Type 0) : Type 0 where
  pub agent_identity : String
  pub diagnostic_accuracy : Option F
  pub total_reviewed : ℕ

pub record VerdictEntry : Type 0 where
  pub verdict : String
  pub reason_code : String
  pub timestamp : ℕ

abbrev pub skip_reasons : List String
skip_reasons = "bad_timing" ∷ "scope_too_broad" ∷ "precautionary" ∷ "policy_block" ∷ []

-- `a.Spec.Annotations[key]`
abbrev annotation : AuditRecord → String → String
annotation a key = deref_or (lookup key a.annotations) ""

-- The verdicts of the audit records that count.
pub verdict_entries : List AuditRecord → List VerdictEntry
verdict_entries [] = []
verdict_entries (a ∷ items) =
    let rest = verdict_entries items in
    if not (str_eq a.event "verdict.submitted")
    then rest
    else (if contains skip_reasons (annotation a "verdictReasonCode")
        then rest
        else record {
          verdict = annotation a "verdict";
          reason_code = annotation a "verdictReasonCode";
          timestamp = a.timestamp;
        }
          ∷ rest)

-- `entries[:count]`, where there are more.
pub first_entries : ℕ → List VerdictEntry → List VerdictEntry
first_entries zero entries = []
first_entries (suc n) [] = []
first_entries (suc n) (e ∷ entries) = e ∷ first_entries n entries

-- (correct, partial, total)
pub tally : List VerdictEntry → ℕ × ℕ × ℕ
tally [] = (0, 0, 0)
tally (e ∷ entries) =
    let (correct, partial, total) = tally entries in
    if str_eq e.verdict "correct"
    then (suc correct, partial, suc total)
    else (if str_eq e.verdict "partial"
        then (correct, suc partial, suc total)
        else (correct, partial, suc total))

-- An execution of the agent that ended.
pub is_execution : (List Condition → String → Bool) → String → AgentRequest → Bool
is_execution is_true agent ar =
    str_eq ar.spec.agent_identity agent
    && (str_eq (phase_name ar.status.phase) "Completed"
        || str_eq (phase_name ar.status.phase) "Failed")
    && is_true ar.status.conditions "Executing"

-- (total, completed)
pub executions : (List Condition → String → Bool) → String → List AgentRequest → ℕ × ℕ
executions is_true agent [] = (0, 0)
executions is_true agent (ar ∷ items) =
    let (total, completed) = executions is_true agent items in
    if is_execution is_true agent ar
    then (
      suc total,
      if str_eq (phase_name ar.status.phase) "Completed" then suc completed else completed,
    )
    else (total, completed)

module _ {F : Type 0} (float : Float F) where
  -- The accuracy of the entries and their number; `none` where there is none.
  pub accuracy_of : List VerdictEntry → Option (F × ℕ)
  accuracy_of entries =
      let (correct, partial, total) = tally entries in
      if ltb 0 total
      then some (
        float.div (float.add (float.of_int correct) (float.mul float.half (float.of_int partial)))
            (float.of_int total),
        total,
      )
      else none

  pub rolling_accuracy :
      (List VerdictEntry → List VerdictEntry) → List AuditRecord → ℕ → Option (F × ℕ)
  rolling_accuracy sort items count =
      accuracy_of (first_entries count (sort (verdict_entries items)))

  pub success_rate : ℕ × ℕ → Option F
  success_rate (total, completed) =
      if total == 0 then none else some (float.div (float.of_int completed) (float.of_int total))

  pub level_meets : GraduationLevel F → F → ℕ → Bool
  level_meets level accuracy executed =
      not (on_option level.accuracy false (λ band. on_option band.min false (float.lt accuracy)))
      && not (on_option level.executions_min false (ltb executed))

  -- `policyFound`; a policy that was not read has no name and no levels.
  pub policy_found : Option (GraduationPolicy F) → Bool
  policy_found none = false
  policy_found (some policy) = not (str_eq policy.name "") && not (is_empty policy.levels)

  -- The last level of the list that is met; `none` where there is none.
  pub last_met : F → ℕ → List (GraduationLevel F) → Option String
  last_met accuracy executed [] = none
  last_met accuracy executed (level ∷ levels) =
      let rest = last_met accuracy executed levels in
      on_option rest (if level_meets level accuracy executed then some level.name else none) some

  pub resolve_trust_level : F → ℕ → Option (GraduationPolicy F) → String
  resolve_trust_level accuracy executed none = observer_name
  resolve_trust_level accuracy executed (some policy) =
      if policy_found (some policy)
      then deref_or (last_met accuracy executed policy.levels) observer_name
      else observer_name

  -- The first level of that name with a minimum: whether the accuracy is below it by the buffer.
  pub below_band : String → F → F → List (GraduationLevel F) → Bool
  below_band old accuracy threshold [] = false
  below_band old accuracy threshold (level ∷ levels) =
      let rest = below_band old accuracy threshold levels in
      if not (str_eq level.name old)
      then rest
      else on_option level.accuracy rest (λ band.
        on_option band.min rest
          (λ m. float.lt accuracy (float.sub m (deref_or band.demotion_buffer threshold))))

  -- The grace period after the last promotion, or the creation, is running; `parse` stands for
  -- time.ParseDuration, and a period that does not parse is skipped.
  pub in_grace_period : (String → Option ℕ) → TrustProfile F → GraduationPolicy F → ℕ → Bool
  in_grace_period parse profile policy now =
      if str_eq policy.grace_period ""
      then false
      else on_option (parse policy.grace_period) false
          (λ grace. ltb now (deref_or profile.last_promoted_at profile.created + grace))

  pub check_demotion :
      (String → Option ℕ) → TrustProfile F → String → F → GraduationPolicy F → ℕ → Bool
  check_demotion parse profile old accuracy policy now =
      if in_grace_period parse profile policy now
      then false
      else below_band old accuracy policy.accuracy_drop_threshold policy.levels

  -- The level that is written, and whether it is a demotion under the policy.
  pub guarded_level :
      (String → Option ℕ)
      → TrustProfile F
      → String
      → String
      → F
      → Option (GraduationPolicy F)
      → ℕ
      → String × Bool
  guarded_level parse profile old new accuracy none now = (new, false)
  guarded_level parse profile old new accuracy (some policy) now =
      if rank_lt (trust_level_rank new) (trust_level_rank old)
      then (if check_demotion parse profile old accuracy policy now
          then (new, true)
          else (old, false))
      else (new, false)
