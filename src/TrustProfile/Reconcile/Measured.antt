-- ===== src/TrustProfile/Reconcile/Measured.antt =====
-- The accuracy that a demotion is judged by, from the calls that have brought it.
use aip_k8s.Prelude.{
  ℕ, String, true, false, not, ◌&&◌, Option, none, some, List, [], ◌∷◌, ◌≡◌, refl, ◌⊎◌, inl, inr,
  ltb, is_empty, deref_or, arith, Bool-cases, Option-cases,
}
use aip_k8s.Api.Trust.{GraduationPolicy}
use aip_k8s.Controller.Types.{AuditRecord, direct}
use aip_k8s.Effects.{Err, Outcome, ok, err, is_not_found, pure, attempt, invoke, ◌>>=◌}
use aip_k8s.Effects.Logic.{Runs, Runs-pure, Runs-bind, Runs-if}
use aip_k8s.TrustProfile.{Summary, rolling_accuracy}
use aip_k8s.TrustProfile.Cluster.{Call, Trace, Cluster, get_summary, list_audits, summary_name}
use aip_k8s.TrustProfile.Reconcile.{
  compute_rolling_accuracy, rolling_or, all_time, recent_accuracy, demotion_accuracy,
}

-- The trace begins with `u`.
abbrev pub StartsWith : {C : Type 0} → List C → List C → Type 0
StartsWith u [] = u ≡ []
StartsWith u (c ∷ t) = (u ≡ c ∷ t) ⊎ StartsWith u t

module _ {F : Type 0} (c : Cluster F) (ns agent : String) where
  -- The verdicts of the agent were listed, with this accuracy over the last `count`; `none` where
  -- the list failed or has no verdict that counts.
  abbrev pub IsRolling : ℕ → Option (F × ℕ) → Trace F → Type 0
  IsRolling count x t =
      (v : Trace F) × StartsWith (list_audits ns agent ∷ v) t
      × (((audits : List AuditRecord) × (c.on_list_audits v ns agent ≡ ok audits)
            × (rolling_accuracy c.float c.sort_newest audits count ≡ x))
          ⊎ ((e : Err) × (c.on_list_audits v ns agent ≡ err e) × (x ≡ none)))

  -- The summary of the agent was read, or is missing.
  abbrev pub SummaryRead : Option (Summary F) → Trace F → Type 0
  SummaryRead (some summary) t =
      (v : Trace F) × StartsWith (get_summary direct ns (summary_name c agent) ∷ v) t
      × (c.on_get_summary v direct ns (summary_name c agent) ≡ ok summary)
  SummaryRead none t =
      (v : Trace F) × StartsWith (get_summary direct ns (summary_name c agent) ∷ v) t
      × (e : Err) × (c.on_get_summary v direct ns (summary_name c agent) ≡ err e)
      × (is_not_found e ≡ true)

  -- The accuracy of the agent's summary, or zero where there is none.
  abbrev pub IsAllTime : F → Trace F → Type 0
  IsAllTime a t =
      ((summary : Summary F) × SummaryRead (some summary) t
        × (a ≡ deref_or summary.diagnostic_accuracy c.zero_float))
      ⊎ (SummaryRead none t × (a ≡ c.zero_float))

  module _ (policy : GraduationPolicy F) where
    -- The accuracy over the evaluation count of the policy, or that of the summary where there is
    -- none.
    abbrev pub IsRecent : F → Trace F → Type 0
    IsRecent a t =
        ((n : ℕ) × IsRolling policy.evaluation_count (some (a, n)) t)
        ⊎ (((is_empty policy.levels ≡ true)
              ⊎ (policy.evaluation_count ≡ 0)
              ⊎ IsRolling policy.evaluation_count none t)
            × IsAllTime a t)

    -- The accuracy over the demotion window of the policy, or the recent one where there is none.
    abbrev pub IsMeasured : F → Trace F → Type 0
    IsMeasured a t =
        ((n : ℕ) × IsRolling policy.window_size (some (a, n)) t)
        ⊎ (((policy.window_size ≡ 0) ⊎ IsRolling policy.window_size none t) × IsRecent a t)

  module _ (call : Call F) (t : Trace F) where
    IsRolling-later :
        (count : ℕ) (x : Option (F × ℕ)) → IsRolling count x t → IsRolling count x (call ∷ t)
    IsRolling-later count x (v, seen, fact) = (v, inr seen, fact)

    pub SummaryRead-later :
        (summary : Option (Summary F)) → SummaryRead summary t → SummaryRead summary (call ∷ t)
    SummaryRead-later none (v, seen, e, failed, missing) = (v, inr seen, e, failed, missing)
    SummaryRead-later (some s) (v, seen, fact) = (v, inr seen, fact)

    IsAllTime-later : (a : F) → IsAllTime a t → IsAllTime a (call ∷ t)
    IsAllTime-later a (inl (summary, read, e)) =
        inl (summary, SummaryRead-later (some summary) read, e)
    IsAllTime-later a (inr (missing, e)) = inr (SummaryRead-later none missing, e)

    IsRecent-later :
        (policy : GraduationPolicy F) (a : F) → IsRecent policy a t → IsRecent policy a (call ∷ t)
    IsRecent-later policy a (inl (n, r)) = inl (n, IsRolling-later _ _ r)
    IsRecent-later policy a (inr (inl blank, all)) = inr (inl blank, IsAllTime-later a all)
    IsRecent-later policy a (inr (inr (inl off), all)) = inr (inr (inl off), IsAllTime-later a all)
    IsRecent-later policy a (inr (inr (inr r), all)) =
        inr (inr (inr (IsRolling-later _ _ r)), IsAllTime-later a all)

    pub IsMeasured-later :
        (policy : GraduationPolicy F) (a : F)
        → IsMeasured policy a t
        → IsMeasured policy a (call ∷ t)
    IsMeasured-later policy a (inl (n, r)) = inl (n, IsRolling-later _ _ r)
    IsMeasured-later policy a (inr (inl off, recent)) =
        inr (inl off, IsRecent-later policy a recent)
    IsMeasured-later policy a (inr (inr r, recent)) =
        inr (inr (IsRolling-later _ _ r), IsRecent-later policy a recent)

  abbrev flat : Outcome (Option (F × ℕ)) → Option (F × ℕ)
  flat (ok x) = x
  flat (err e) = none

  module _ (P : Call F → Trace F → Type 0)
      (lists : (t : Trace F) → P (list_audits ns agent) t) where
    shaped : ℕ → Outcome (List AuditRecord) → Outcome (Option (F × ℕ))
    shaped count (ok audits) = ok (rolling_accuracy c.float c.sort_newest audits count)
    shaped count (err e) = err e

    compute_rolling_accuracy-shaped :
        (count : ℕ) (t : Trace F)
        → attempt (compute_rolling_accuracy c ns agent count) t
          ≡ (ok (shaped count (c.on_list_audits t ns agent)), list_audits ns agent ∷ t)
    unfolding compute_rolling_accuracy shaped attempt invoke pure ◌>>=◌
    compute_rolling_accuracy-shaped count t = elim (outcome_cases (c.on_list_audits t ns agent)) [
      | inl (audits, e) ↦ rw e refl
      | inr (x, e) ↦ rw e refl
    ]
      where
        outcome_cases :
            (r : Outcome (List AuditRecord))
            → ((audits : List AuditRecord) × (r ≡ ok audits)) ⊎ ((x : Err) × (r ≡ err x))
        outcome_cases (ok audits) = inl (audits, refl)
        outcome_cases (err x) = inr (x, refl)

    rolled :
        (count : ℕ) (v : Trace F) (r : Outcome (List AuditRecord))
        → c.on_list_audits v ns agent ≡ r
        → IsRolling count (flat (shaped count r)) (list_audits ns agent ∷ v)
    unfolding shaped
    rolled count v (ok audits) e = (v, inl refl, inl (audits, e, refl))
    rolled count v (err x) e = (v, inl refl, inr (x, e, refl))

    compute_rolling_accuracy-IsRolling :
        (count : ℕ) (Ev : Trace F → Type 0)
        → ((call : Call F) (t : Trace F) → Ev t → Ev (call ∷ t))
        → Runs P Ev
            (attempt (compute_rolling_accuracy c ns agent count))
            (λ answer t. Ev t × IsRolling count (flat answer) t)
    compute_rolling_accuracy-IsRolling count Ev later = record {
      at = λ t h e.
          rw (compute_rolling_accuracy-shaped count t)
            ((lists t, h), (later _ t e, rolled count t _ refl));
    }

    all_time-IsAllTime :
        (summary : Option (Summary F)) (t : Trace F)
        → SummaryRead summary t
        → IsAllTime (all_time c summary).0 t
    unfolding all_time
    all_time-IsAllTime none t read = inr (read, refl)
    all_time-IsAllTime (some s) t read = elim (Option-cases s.diagnostic_accuracy) [
      | inl blank ↦ inl (s, read, rw blank refl)
      | inr (a, known) ↦ inl (s, read, rw known refl)
    ]

    fallen :
        {A : Type 0} (a : A) (f : F × ℕ → A) (answer : Outcome (Option (F × ℕ)))
        → ((x : F × ℕ) × (flat answer ≡ some x) × (rolling_or c a f answer ≡ f x))
          ⊎ ((flat answer ≡ none) × (rolling_or c a f answer ≡ a))
    unfolding rolling_or
    fallen a f (ok (some x)) = inl (x, refl, refl)
    fallen a f (ok none) = inr (refl, refl)
    fallen a f (err e) = inr (refl, refl)

    pub recent_accuracy-IsRecent :
        (summary : Option (Summary F)) (policy : GraduationPolicy F)
        → Runs P
            (SummaryRead summary)
            (recent_accuracy c ns agent summary (some policy))
            (λ r t. IsRecent policy r.0 t)
    unfolding recent_accuracy
    recent_accuracy-IsRecent summary policy =
        Runs-if (not (is_empty policy.levels) && ltb 0 policy.evaluation_count)
          (λ used.
            Runs-bind
              (compute_rolling_accuracy-IsRolling policy.evaluation_count (SummaryRead summary)
                (λ call t. SummaryRead-later call t summary))
              (λ answer. Runs-pure _ (λ t fact. elim (fallen (all_time c summary) (λ r. r) answer) [
                | inl (x, e, f) ↦ inl (x.1, rw f (rw e at fact.1))
                | inr (e, f) ↦
                    inr (inr (inr (rw e at fact.1)), rw f (all_time-IsAllTime summary t fact.0))
              ])))
          (λ unused. Runs-pure _ (λ t read. inr (why unused, all_time-IsAllTime summary t read)))
      where
        why :
            {X : Type 0}
            → (not (is_empty policy.levels) && ltb 0 policy.evaluation_count) ≡ false
            → (is_empty policy.levels ≡ true) ⊎ (policy.evaluation_count ≡ 0) ⊎ X
        why h = elim (Bool-cases (is_empty policy.levels)) [
          | inl blank ↦ inl blank
          | inr levels ↦ inr (inl (ground (arith, h, levels)))
        ]

    pub demotion_accuracy-IsMeasured :
        (recent : F) (policy : GraduationPolicy F)
        → Runs P
            (IsRecent policy recent)
            (demotion_accuracy c ns agent recent (some policy))
            (IsMeasured policy)
    unfolding demotion_accuracy
    demotion_accuracy-IsMeasured recent policy =
        Runs-if (ltb 0 policy.window_size)
          (λ used.
            Runs-bind
              (compute_rolling_accuracy-IsRolling policy.window_size (IsRecent policy recent)
                (λ call t. IsRecent-later call t policy recent))
              (λ answer. Runs-pure _ (λ t fact. elim (fallen recent (λ (r : F × ℕ). r.0) answer) [
                | inl (x, e, f) ↦ inl (x.1, rw f (rw e at fact.1))
                | inr (e, f) ↦ inr (inr (rw e at fact.1), rw f fact.0)
              ])))
          (λ unused. Runs-pure _ (λ t fact. inr (inl (ground (arith, unused)), fact)))
