-- ===== src/TrustProfile/Reconcile.antt =====
-- `AgentTrustProfileReconciler.Reconcile`. The answer of a status patch is not read.
pub mod Measured
pub mod Justified
pub mod Demotion
use aip_k8s.Prelude.{
  ℕ, zero, suc, String, Bool, true, false, not, ◌&&◌, Option, none, some, List, [], ◌∷◌, str_eq,
  str_append, ltb, is_empty, if◌then◌else◌, on_option,
}
use aip_k8s.Api.Request.{AgentRequest}
use aip_k8s.Api.Trust.{trust_level_rank, rank_lt, observer_name, GraduationPolicy, TrustProfile}
use aip_k8s.Controller.Types.{AuditRecord, direct}
use aip_k8s.Effects.{
  Outcome, ok, err, is_not_found, is_already_exists, pure, raise, invoke, attempt, ◌>>=◌, ◌>>◌,
}
use aip_k8s.TrustProfile.{
  Summary, rolling_accuracy, executions, success_rate, resolve_trust_level, guarded_level,
}
use aip_k8s.TrustProfile.Cluster.{
  Cluster, M, get_policy, list_audits, patch_profile, create_audit, now, get_summary_m,
  list_requests_m, audit_name, summary_name,
}
use aip_k8s.TrustProfile.Bootstrap.{get_or_bootstrap_profile}

module _ {F : Type 0} (c : Cluster F) where
  -- A missing object is `none`, any other error ends the reconcile.
  found_or_none : {A : Type 0} → Outcome A → M F (Option A)
  found_or_none (ok a) = pure (some a)
  found_or_none (err e) = if is_not_found e then pure none else raise e

  -- `computeRollingAccuracy`
  compute_rolling_accuracy : String → String → ℕ → M F (Option (F × ℕ))
  compute_rolling_accuracy ns agent count = do
    audits ← invoke (list_audits ns agent) (λ t. c.on_list_audits t ns agent)
    pure (rolling_accuracy c.float c.sort_newest audits count)

  -- A failure is logged, and the value before it stays.
  rolling_or : {A : Type 0} → A → (F × ℕ → A) → Outcome (Option (F × ℕ)) → A
  rolling_or a f (ok (some r)) = f r
  rolling_or a f _ = a

  -- (recentAccuracy, totalReviewed) of the summary.
  all_time : Option (Summary F) → F × ℕ
  all_time none = (c.zero_float, 0)
  all_time (some summary) =
      on_option summary.diagnostic_accuracy (c.zero_float, 0) (λ a. (a, summary.total_reviewed))

  pub recent_accuracy :
      String → String → Option (Summary F) → Option (GraduationPolicy F) → M F (F × ℕ)
  recent_accuracy ns agent summary none = pure (all_time summary)
  recent_accuracy ns agent summary (some policy) =
      if not (is_empty policy.levels) && ltb 0 policy.evaluation_count
      then (do
        rolling ← attempt (compute_rolling_accuracy ns agent policy.evaluation_count)
        pure (rolling_or (all_time summary) (λ r. r) rolling))
      else pure (all_time summary)

  -- `computeDemotionAccuracy`
  pub demotion_accuracy : String → String → F → Option (GraduationPolicy F) → M F F
  demotion_accuracy ns agent recent none = pure recent
  demotion_accuracy ns agent recent (some policy) =
      if ltb 0 policy.window_size
      then (do
        rolling ← attempt (compute_rolling_accuracy ns agent policy.window_size)
        pure (rolling_or recent (λ r. r.0) rolling))
      else pure recent

  -- `countTerminalExecutions`; a failure is logged and counts nothing.
  counted : String → Outcome (List AgentRequest) → ℕ × Option F
  counted agent (err e) = (0, none)
  counted agent (ok items) =
      let n = executions c.is_status_condition_true agent items in (n.0, success_rate c.float n)

  -- The status that is written.
  updated :
      TrustProfile F
      → Option (Summary F)
      → F × ℕ
      → ℕ × Option F
      → String
      → String
      → ℕ
      → TrustProfile F
  updated profile summary recent runs old level time =
      let risen = rank_lt (trust_level_rank old) (trust_level_rank level) in
      record profile {
        trust_level = level;
        diagnostic_accuracy = on_option summary none (λ x. x.diagnostic_accuracy);
        recent_accuracy = some recent.0;
        total_reviewed = recent.1;
        total_executions = runs.0;
        success_rate = runs.1;
        last_evaluated_at = some time;
        last_promoted_at =
            if not (str_eq level old) && risen then some time else profile.last_promoted_at;
        last_demoted_at =
            if not (str_eq level old) && not risen then some time else profile.last_demoted_at;
      }

  -- `err == nil || errors.IsAlreadyExists(err)`
  audit_kept : Outcome (Unit {0}) → Bool
  audit_kept (ok _) = true
  audit_kept (err e) = is_already_exists e

  -- `emitTrustProfileAuditWithRetry` tries three times; an error is logged.
  retry_audit : ℕ → AuditRecord → M F (Unit {0})
  retry_audit zero audit = pure tt
  retry_audit (suc n) audit =
      let rest = retry_audit n audit in
      (do
        created ← attempt (invoke (create_audit audit) (λ t. c.on_create_audit t audit))
        if audit_kept created then pure tt else rest)

  level_audit : TrustProfile F → String → String → Bool → ℕ → AuditRecord
  level_audit profile old level demoted time = record {
    name = audit_name c profile.name "agent.trustprofile.updated" old level;
    namespace = profile.namespace;
    labels = ("aip.io/agentIdentity", profile.agent_identity) ∷ [];
    owners = [];
    timestamp = time;
    agent_identity = profile.agent_identity;
    agent_request_ref = "-";
    event = "agent.trustprofile.updated";
    action = "trust-evaluation";
    target_uri = "agent-trust-profile";
    reason = str_append "Trust level changed from " (str_append old (str_append " to " level));
    policy_evaluations = [];
    phase_transition = none;
    annotations =
        ("oldLevel", old)
        ∷ ("newLevel", level)
        ∷ ("demoted", if demoted then "true" else "false")
        ∷ [];
    details = none;
  }

  emit_level_audit : TrustProfile F → String → String → Bool → M F (Unit {0})
  emit_level_audit profile old level demoted = do
    time ← now c
    let audit = level_audit profile old level demoted time
    retry_audit 3 (on_option (c.controller_reference profile audit) audit (λ owned. owned))

  write_level :
      TrustProfile F
      → Option (Summary F)
      → F × ℕ
      → ℕ × Option F
      → String
      → String × Bool
      → M F (Unit {0})
  write_level profile summary recent runs old (level, demoted) = do
    time ← now c
    let next = updated profile summary recent runs old level time
    invoke (patch_profile profile next) (λ t. c.on_patch_profile t profile next)
    if str_eq level old then pure tt else emit_level_audit next old level demoted

  evaluate_profile : TrustProfile F → M F (Unit {0})
  evaluate_profile profile = do
    let ns = profile.namespace
    let agent = profile.agent_identity
    read ← attempt (get_summary_m c direct ns (summary_name c agent))
    summary ← found_or_none read
    policy_answer ← attempt (invoke (get_policy ns) (λ t. c.on_get_policy t ns))
    policy ← found_or_none policy_answer
    recent ← recent_accuracy ns agent summary policy
    demotion ← demotion_accuracy ns agent recent.0 policy
    listed ← attempt (list_requests_m c ns none)
    let runs = counted agent listed
    let old = if str_eq profile.trust_level "" then observer_name else profile.trust_level
    time ← now c
    write_level profile summary recent runs old (
        guarded_level c.float c.parse_duration profile old
          (resolve_trust_level c.float recent.0 runs.0 policy) demotion policy time)

  -- `Reconcile`
  pub reconcile : String → String → M F (Unit {0})
  reconcile name ns = do
    found ← get_or_bootstrap_profile c ns name
    on_option found (pure tt)
        (λ profile. if str_eq profile.agent_identity "" then pure tt else evaluate_profile profile)
