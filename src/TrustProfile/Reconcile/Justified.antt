-- ===== src/TrustProfile/Reconcile/Justified.antt =====
-- What justifies a lower trust level, and that the level which is settled is justified.
use aip_k8s.Prelude.{
  ℕ, String, Bool, true, false, Option, none, some, ◌∷◌, ◌≡◌, refl, ◌∙◌, ◌⊎◌, inl, inr, str_eq,
  if◌then◌else◌, arith,
}
use aip_k8s.Api.Trust.{trust_level_rank, rank_lt, observer_name, GraduationPolicy, TrustProfile}
use aip_k8s.Effects.{Err, ok, err, is_not_found}
use aip_k8s.TrustProfile.{guarded_level}
use aip_k8s.TrustProfile.Limits.{OutOfGrace, IsLimit}
use aip_k8s.TrustProfile.Levels.{guarded_level-IsSettled}
use aip_k8s.TrustProfile.Cluster.{Call, Trace, Cluster, read_clock}
use aip_k8s.TrustProfile.Reconcile.Measured.{StartsWith, IsRecent, IsMeasured, IsMeasured-later}

module _ {F : Type 0} (c : Cluster F) where
  -- The level that a profile counts as having.
  abbrev pub level_before : TrustProfile F → String
  level_before b = if str_eq b.trust_level "" then observer_name else b.trust_level

  abbrev pub PolicyRead : String → Option (GraduationPolicy F) → Type 0
  PolicyRead ns (some policy) = (t : Trace F) × (c.on_get_policy t ns ≡ ok policy)
  PolicyRead ns none =
      (t : Trace F) × (e : Err) × (c.on_get_policy t ns ≡ err e) × (is_not_found e ≡ true)

  -- The level is not lowered; or there was no policy; or the policy that was read has a minimum for
  -- the level before, the accuracy that was measured is below it by its buffer, and the clock was
  -- read when no grace period was running.
  abbrev pub IsJustified : TrustProfile F → TrustProfile F → Trace F → Type 0
  IsJustified b n t =
      (rank_lt (trust_level_rank n.trust_level) (trust_level_rank (level_before b)) ≡ false)
      ⊎ PolicyRead b.namespace none
      ⊎ ((policy : GraduationPolicy F) × PolicyRead b.namespace (some policy)
          × (u : Trace F) × StartsWith (read_clock ∷ u) t
          × OutOfGrace c.float c.parse_duration b policy (c.clock u)
          × (accuracy : F) × IsMeasured c b.namespace b.agent_identity policy accuracy t
          × (limit : F) × IsLimit c.float (level_before b) policy.accuracy_drop_threshold
              policy.levels limit
          × (c.float.lt accuracy limit ≡ true))

  rank_lt_irrefl : (a : Option ℕ) → rank_lt a a ≡ false
  rank_lt_irrefl none = refl
  rank_lt_irrefl (some n) = ground arith

  module _ (profile : TrustProfile F) where
    abbrev ns : String
    ns = profile.namespace

    abbrev agent : String
    agent = profile.agent_identity

    -- What is known of the accuracies, where there is a policy.
    abbrev pub RecentOf : Option (GraduationPolicy F) → F × ℕ → Trace F → Type 0
    RecentOf none r t = Unit
    RecentOf (some policy) r t = IsRecent c ns agent policy r.0 t

    abbrev pub MeasuredOf : Option (GraduationPolicy F) → F → Trace F → Type 0
    MeasuredOf none a t = Unit
    MeasuredOf (some policy) a t = IsMeasured c ns agent policy a t

    pub MeasuredOf-later :
        (policy : Option (GraduationPolicy F)) (a : F) (call : Call F) (t : Trace F)
        → MeasuredOf policy a t
        → MeasuredOf policy a (call ∷ t)
    MeasuredOf-later none a call t fact = tt
    MeasuredOf-later (some policy) a call t fact = IsMeasured-later c ns agent call t policy a fact

    module _ (new : String) (accuracy : F) (u : Trace F) where
      abbrev pub settled : Option (GraduationPolicy F) → String × Bool
      settled policy =
          guarded_level c.float c.parse_duration profile (level_before profile) new accuracy policy
            (c.clock u)

      pub settled-IsJustified :
          (policy : Option (GraduationPolicy F)) (n : TrustProfile F)
          → PolicyRead ns policy
          → MeasuredOf policy accuracy u
          → n.trust_level ≡ (settled policy).0
          → IsJustified profile n (read_clock ∷ read_clock ∷ u)
      settled-IsJustified none n read measured e = inr (inl read)
      settled-IsJustified (some policy) n read measured e =
          elim (guarded_level-IsSettled c.float c.parse_duration profile (level_before profile) new
            accuracy policy (c.clock u)) [
              | inl (not_lower, taken, _) ↦ inl (rw (e ∙ taken) not_lower)
              | inr (inl (_, kept, _, _)) ↦
                  inl (rw (e ∙ kept) (rank_lt_irrefl (trust_level_rank (level_before profile))))
              | inr (inr (_, _, _, due)) ↦ inr (
                  inr (
                    policy,
                    read,
                    u,
                    inr (inl refl),
                    due.0,
                    accuracy,
                    IsMeasured-later c ns agent _ _ policy accuracy
                        (IsMeasured-later c ns agent _ _ policy accuracy measured),
                    due.1,
                    due.2,
                    due.3,
                  ))
            ]
