-- ===== src/TrustProfile/Reconcile/Demotion.antt =====
-- Over any series of reconciles, a trust level is lowered only as the policy allows.
use aip_k8s.Prelude.{
  ℕ, zero, suc, String, Bool, Option, none, some, List, [], ◌∷◌, ◌≡◌, refl, ap, inl, str_eq,
}
use aip_k8s.Api.Trust.{GraduationPolicy, TrustProfile}
use aip_k8s.Controller.Types.{AuditRecord, direct}
use aip_k8s.Effects.{Outcome, ok, err, is_not_found, invoke, attempt, ◌>>=◌}
use aip_k8s.Effects.Logic.{
  Hist, Keeps, Keeps-pure, Keeps-invoke, Keeps-attempt, Keeps-bind, Keeps-if, Runs, Runs-keep,
  Runs-pure, Runs-raise, Runs-invoke, Runs-attempt_invoke, Runs-bind, Runs-if, Runs-option,
}
use aip_k8s.TrustProfile.{Summary, guarded_level, resolve_trust_level}
use aip_k8s.TrustProfile.Cluster.{
  Call, Trace, Cluster, M, read_clock, get_summary, get_policy, list_requests, patch_profile,
  create_audit, now, get_summary_m, list_requests_m, summary_name,
}
use aip_k8s.TrustProfile.Bootstrap.Quiet.{Reads, get_or_bootstrap_profile-Quiet}
use aip_k8s.TrustProfile.Reconcile.{
  found_or_none, recent_accuracy, demotion_accuracy, counted, updated, audit_kept, retry_audit,
  emit_level_audit, write_level, evaluate_profile, reconcile,
}
use aip_k8s.TrustProfile.Reconcile.Measured.{
  StartsWith, SummaryRead, SummaryRead-later, recent_accuracy-IsRecent,
  demotion_accuracy-IsMeasured,
}
use aip_k8s.TrustProfile.Reconcile.Justified.{
  level_before, PolicyRead, IsJustified, RecentOf, MeasuredOf, MeasuredOf-later,
  settled-IsJustified,
}

module _ {F : Type 0} (c : Cluster F) where
  abbrev pub Lowers : Call F → Trace F → Type 0
  Lowers (patch_profile b n) t = IsJustified c b n t
  Lowers _ t = Unit

  abbrev Safe : {A : Type 0} → M F A → Type 0
  Safe m = Keeps Lowers (λ _. Unit) m

  plain :
      {A : Type 0} (call : Call F) (f : Trace F → Outcome A)
      → ((t : Trace F) → Lowers call t)
      → Safe (invoke call f)
  plain call f p = Keeps-invoke call f (λ t e. p t) (λ t e. tt)

  reads : Reads Lowers
  reads = record {
    profiles = λ r ns n t. tt;
    summaries = λ r ns n t. tt;
    registrations = λ ns key t. tt;
    requests = λ ns label t. tt;
    creations = λ p t. tt;
  }

  retry_audit-Safe : (n : ℕ) (audit : AuditRecord) → Safe (retry_audit c n audit)
  unfolding retry_audit
  retry_audit-Safe zero audit = Keeps-pure _
  retry_audit-Safe (suc n) audit =
      Keeps-bind (Keeps-attempt (plain (create_audit audit) _ (λ t. tt)))
        (λ created. Keeps-if (audit_kept c created) (Keeps-pure _) (retry_audit-Safe n audit))

  emit_level_audit-Safe :
      (profile : TrustProfile F) (old level : String) (demoted : Bool)
      → Safe (emit_level_audit c profile old level demoted)
  unfolding emit_level_audit now
  emit_level_audit-Safe profile old level demoted =
      Keeps-bind (plain read_clock _ (λ t. tt)) (λ time. retry_audit-Safe 3 _)

  abbrev Done : Type 0
  Done = Unit

  module _ (profile : TrustProfile F) where
    abbrev ns : String
    ns = profile.namespace

    abbrev agent : String
    agent = profile.agent_identity

    write_level-Runs :
        (u : Trace F) (summary : Option (Summary F)) (recent : F × ℕ) (runs : ℕ × Option F)
        (old : String) (level : String × Bool)
        → ((n : TrustProfile F)
            → n.trust_level ≡ level.0
            → IsJustified c profile n (read_clock ∷ read_clock ∷ u))
        → Runs Lowers
            (λ t. t ≡ read_clock ∷ u)
            (write_level c profile summary recent runs old level)
            (λ _ _. Done)
    unfolding write_level updated now
    write_level-Runs u summary recent runs old (level, demoted) justified =
        Runs-bind
          (Runs-invoke {Q = λ _ t. t ≡ read_clock ∷ read_clock ∷ u} read_clock _ (λ t e. tt)
            (λ t e a p. ap (λ (v : Trace F). read_clock ∷ v) e))
          (λ time.
            Runs-bind
              (Runs-invoke {Q = λ _ _. Unit}
                (patch_profile profile (updated c profile summary recent runs old level time)) _
                (λ t e.
                  rw e (justified (updated c profile summary recent runs old level time) refl))
                (λ t e a p. tt))
              (λ _. Runs-keep (
                Keeps-if (str_eq level old) (Keeps-pure _)
                  (emit_level_audit-Safe _ old level demoted))))

    settle-Runs :
        (summary : Option (Summary F)) (recent : F × ℕ) (runs : ℕ × Option F) (new : String)
        (accuracy : F) (policy : Option (GraduationPolicy F))
        → PolicyRead c ns policy
        → Runs Lowers
            (MeasuredOf c profile policy accuracy)
            (now c >>= λ time. write_level c profile summary recent runs (level_before c profile) (
              guarded_level c.float c.parse_duration profile
                (level_before c profile)
                new
                accuracy
                policy
                time))
            (λ _ _. Done)
    unfolding now invoke ◌>>=◌
    settle-Runs summary recent runs new accuracy policy read = record {
      at = λ u h measured.
          (write_level-Runs u summary recent runs (level_before c profile) _
              (λ n. settled-IsJustified c profile new accuracy u policy n read measured)).at
            (read_clock ∷ u) (tt, h) refl;
    }

    recent-Runs :
        (summary : Option (Summary F)) (policy : Option (GraduationPolicy F))
        → Runs Lowers
            (SummaryRead c ns agent summary)
            (recent_accuracy c ns agent summary policy)
            (RecentOf c profile policy)
    unfolding recent_accuracy
    recent-Runs summary none = Runs-pure _ (λ t e. tt)
    recent-Runs summary (some policy) =
        recent_accuracy-IsRecent c ns agent Lowers (λ t. tt) summary policy

    demotion-Runs :
        (recent : F × ℕ) (policy : Option (GraduationPolicy F))
        → Runs Lowers
            (RecentOf c profile policy recent)
            (demotion_accuracy c ns agent recent.0 policy)
            (MeasuredOf c profile policy)
    unfolding demotion_accuracy
    demotion-Runs recent none = Runs-pure _ (λ t e. tt)
    demotion-Runs recent (some policy) =
        demotion_accuracy-IsMeasured c ns agent Lowers (λ t. tt) recent.0 policy

    abbrev SummaryAnswered : Outcome (Summary F) → Trace F → Type 0
    SummaryAnswered answer t =
        (v : Trace F) × StartsWith (get_summary direct ns (summary_name c agent) ∷ v) t
        × (c.on_get_summary v direct ns (summary_name c agent) ≡ answer)

    summary-Runs :
        (answer : Outcome (Summary F))
        → Runs Lowers (SummaryAnswered answer) (found_or_none c answer) (SummaryRead c ns agent)
    unfolding found_or_none
    summary-Runs (ok summary) = Runs-pure _ (λ t e. e)
    summary-Runs (err x) =
        Runs-if (is_not_found x) (λ missing. Runs-pure _ (λ t e. (e.0, e.1, x, e.2, missing)))
          (λ other. Runs-raise x)

    -- The policy, next to what is known of the summary.
    policy-Runs :
        (summary : Option (Summary F)) (answer : Outcome (GraduationPolicy F)) (v : Trace F)
        → c.on_get_policy v ns ≡ answer
        → Runs Lowers
            (SummaryRead c ns agent summary)
            (found_or_none c answer)
            (λ policy t. SummaryRead c ns agent summary t × PolicyRead c ns policy)
    unfolding found_or_none
    policy-Runs summary (ok policy) v e = Runs-pure _ (λ t fact. (fact, (v, e)))
    policy-Runs summary (err x) v e =
        Runs-if (is_not_found x) (λ missing. Runs-pure _ (λ t fact. (fact, (v, x, e, missing))))
          (λ other. Runs-raise x)

    graded-Runs :
        (summary : Option (Summary F)) (policy : Option (GraduationPolicy F))
        → PolicyRead c ns policy
        → Runs Lowers
            (SummaryRead c ns agent summary)
            (do
              recent ← recent_accuracy c ns agent summary policy
              demotion ← demotion_accuracy c ns agent recent.0 policy
              listed ← attempt (list_requests_m c ns none)
              let runs = counted c agent listed
              time ← now c
              write_level c profile summary recent runs (level_before c profile) (
                  guarded_level c.float c.parse_duration profile
                    (level_before c profile)
                    (resolve_trust_level c.float recent.0 runs.0 policy)
                    demotion
                    policy
                    time))
            (λ _ _. Done)
    unfolding list_requests_m
    graded-Runs summary policy read = Runs-bind (recent-Runs summary policy) (λ recent.
        Runs-bind (demotion-Runs recent policy) (λ demotion.
          Runs-bind
            (Runs-attempt_invoke {Q = λ _. MeasuredOf c profile policy demotion} (list_requests _ _)
              _ (λ t e. tt) (λ t e. MeasuredOf-later c profile policy demotion _ t e))
            (λ listed. settle-Runs summary recent _ _ demotion policy read)))

    evaluate_profile-Runs : Runs Lowers (λ _. Unit) (evaluate_profile c profile) (λ _ _. Done)
    unfolding evaluate_profile get_summary_m
    evaluate_profile-Runs =
        Runs-bind
          (Runs-attempt_invoke {Q = SummaryAnswered} (get_summary _ _ _) _ (λ t e. tt)
            (λ t e. (t, inl refl, refl)))
          (λ answer. Runs-bind (summary-Runs answer) (λ summary.
            Runs-bind
              (Runs-attempt_invoke
                {Q = λ r t.
                  SummaryRead c ns agent summary t × (v : Trace F) × (c.on_get_policy v ns ≡ r)}
                (get_policy _) _ (λ t e. tt)
                (λ t e. (SummaryRead-later c ns agent _ t summary e, t, refl)))
              (λ found. record {
                at = λ t h fact.
                    (Runs-bind (policy-Runs summary found fact.1 fact.2) (λ policy. record {
                      at = λ w k read. (graded-Runs summary policy read.1).at w k read.0;
                    })).at
                      t h fact.0;
              })))

  reconcile-Runs :
      (name namespace : String) → Runs Lowers (λ _. Unit) (reconcile c name namespace) (λ _ _. Done)
  unfolding reconcile
  reconcile-Runs name namespace =
      Runs-bind (Runs-keep (get_or_bootstrap_profile-Quiet c reads namespace name)) (λ found.
        Runs-option found (λ e. Runs-pure _ (λ t e. tt))
          (λ profile e.
            Runs-if (str_eq profile.agent_identity "") (λ e. Runs-pure _ (λ t e. tt))
              (λ e. evaluate_profile-Runs profile)))

  -- The worker's loop over the names and namespaces that the queue delivers.
  pub run : List (String × String) → Trace F → Trace F
  run [] t = t
  run ((name, ns) ∷ queue) t = run queue (reconcile c name ns t).1

  run-from :
      (queue : List (String × String)) (t : Trace F) → Hist Lowers t → Hist Lowers (run queue t)
  unfolding run
  run-from [] t h = h
  run-from ((name, ns) ∷ queue) t h = run-from queue _ ((reconcile-Runs name ns).at t h tt).0

  -- Over any series of reconciles, whatever the cluster answers: a status patch does not lower the
  -- trust level of a profile, or the namespace had no graduation policy, or a policy was read with
  -- a minimum accuracy for the level before, and of the calls before the patch, a reading of the
  -- clock showed that no grace period was running, and the accuracy that was measured is below the
  -- minimum by its buffer, or else the policy's threshold. The measured accuracy is that of the
  -- agent's last verdicts in the window of the policy; where there is none, that of the last
  -- verdicts in its evaluation count; and where there is none either, that of the agent's summary,
  -- or zero without one.
  pub run-Lowers : (queue : List (String × String)) → Hist Lowers (run queue [])
  run-Lowers queue = run-from queue [] tt
