-- ===== src/Gateway/Gate/Rules.antt =====
-- What the trust gate of cmd/gateway/governed_resource.go promises, whatever the cluster answers.
use aip_k8s.Prelude.{
  ℕ, String, Bool, true, false, ◌≡◌, refl, ◌⊎◌, inl, inr, Option, none, some, List, [], ◌∷◌, str_eq,
  arith, on_option, lookup, has_value, Bool-cases, Option-cases,
}
use aip_k8s.Api.Policy.{GovernedResource, TrustRequirements}
use aip_k8s.Api.Trust.{
  trust_level_rank, rank_lt, observer_name, TrustProfile, GraduationLevel, GraduationPolicy,
}
use aip_k8s.Effects.{Outcome, ok, err, is_not_found, pure, invoke, attempt, wrap_error, ◌>>=◌}
use aip_k8s.Gateway.Server.{Server, Trace, get_profile, get_policy, profile_name}
use aip_k8s.Gateway.Gate.{
  TrustGateResult, rejection, effective_level_key, can_execute_key, bool_to_str, level_or_observer,
  below_minimum, effective_autonomy, gate_annotations, level_rights, profile_level, policy_rights,
  above_minimum, gate, evaluate_trust_gate,
}

abbrev shown : String → Bool × Bool → TrustGateResult
shown a rights = record {
  rejected = false;
  message = "";
  annotations = gate_annotations a rights.0 rights.1;
}

module _ {F : Type 0} where
  -- The level in the profile that the gate reads.
  abbrev pub level_of : Outcome (TrustProfile F) → String
  level_of (ok profile) = level_or_observer profile.trust_level
  level_of (err e) = observer_name

  -- canExecute and requiresHumanApproval of a level in the policy that the gate reads.
  abbrev pub rights_of : String → Outcome (GraduationPolicy F) → Bool × Bool
  rights_of a (ok policy) = level_rights a policy.levels
  rights_of a (err e) = (false, true)

  policy_answered :
      (s : Server F) (a : String) (answer : Outcome (GraduationPolicy F)) (t : Trace)
      (r : TrustGateResult)
      → ((policy_rights s a answer >>= λ rights. pure (shown a rights)) t).0 ≡ ok r
      → r ≡ shown a (rights_of a answer)
  unfolding policy_rights wrap_error ◌>>=◌
  policy_answered s a (ok policy) t r h = cc h
  policy_answered s a (err e) t r h = elim (Bool-cases (is_not_found e)) [
    | inl missing ↦ ground (arith, missing)
    | inr failed ↦ ground (arith, failed)
  ]

  -- The two ways in which the gate returns a result, from what it reads.
  abbrev Gated :
      TrustRequirements → String → Outcome (GraduationPolicy F) → TrustGateResult → Type 0
  Gated tr level answer r =
      ((m : String) × (below_minimum level tr ≡ some m) × (r ≡ rejection m))
      ⊎ ((below_minimum level tr ≡ none)
          × (r
              ≡ shown (effective_autonomy level tr)
                  (rights_of (effective_autonomy level tr) answer)))

-- The first level of that name in a policy may execute.
abbrev pub LetsExecute : {F : Type 0} → String → List (GraduationLevel F) → Type 0
LetsExecute name [] = ⊥
LetsExecute name (level ∷ levels) =
    ((str_eq level.name name ≡ true) × (level.can_execute ≡ true))
    ⊎ ((str_eq level.name name ≡ false) × LetsExecute name levels)

level_rights-LetsExecute :
    {F : Type 0} (name : String) (levels : List (GraduationLevel F))
    → (level_rights name levels).0 ≡ true
    → LetsExecute name levels
unfolding level_rights
level_rights-LetsExecute name [] h = absurd (cc h)
level_rights-LetsExecute name (level ∷ levels) h = elim (Bool-cases (str_eq level.name name)) [
  | inl named ↦ inl (named, rw named at h)
  | inr other ↦ inr (other, level_rights-LetsExecute name levels (rw other at h))
]

closed_or_granted :
    {F : Type 0} (a : String) (answer : Outcome (GraduationPolicy F))
    → (has_value (shown a (rights_of a answer)).annotations can_execute_key "false" ≡ true)
      ⊎ ((p : GraduationPolicy F) × (answer ≡ ok p) × LetsExecute a p.levels)
unfolding gate_annotations bool_to_str
closed_or_granted a (err e) = inl refl
closed_or_granted a (ok policy) = elim (Bool-cases (level_rights a policy.levels).0) [
  | inl granted ↦ inr (policy, refl, level_rights-LetsExecute a policy.levels granted)
  | inr refused ↦ inl (rw refused refl)
]

-- The minimum is not set, or is a known level that the level is not below.
abbrev pub MeetsMinimum : TrustRequirements → String → Type 0
MeetsMinimum tr level =
    (str_eq tr.min_trust_level "" ≡ true)
    ⊎ ((m : ℕ) × (trust_level_rank tr.min_trust_level ≡ some m)
        × (rank_lt (trust_level_rank level) (some m) ≡ false))

-- `a` is above neither the level nor a known maximum.
abbrev pub IsCapped : String → TrustRequirements → String → Type 0
IsCapped level tr a =
    (rank_lt (trust_level_rank level) (trust_level_rank a) ≡ false)
    × ((trust_level_rank tr.max_autonomy_level ≡ none)
        ⊎ (rank_lt (trust_level_rank tr.max_autonomy_level) (trust_level_rank a) ≡ false))

rank_lt_irrefl : (a : Option ℕ) → rank_lt a a ≡ false
rank_lt_irrefl none = refl
rank_lt_irrefl (some n) = ground arith

rank_lt_asym : (a b : Option ℕ) → rank_lt a b ≡ true → rank_lt b a ≡ false
rank_lt_asym none b h = refl
rank_lt_asym (some n) none h = absurd (cc h)
rank_lt_asym (some n) (some m) h = ground arith

effective_autonomy-IsCapped :
    (level : String) (tr : TrustRequirements) → IsCapped level tr (effective_autonomy level tr)
unfolding effective_autonomy
effective_autonomy-IsCapped level tr =
    elim (Option-cases (trust_level_rank tr.max_autonomy_level)) [
      | inl unknown ↦ rw unknown (rank_lt_irrefl (trust_level_rank level), inl refl)
      | inr (m, known) ↦ elim (Bool-cases (rank_lt (some m) (trust_level_rank level))) [
        | inl lowered ↦
            let down : rank_lt (trust_level_rank level) (some m) ≡ false =
              rank_lt_asym (some m) (trust_level_rank level) lowered in
            rw (known, lowered, known) (down, inr (rank_lt_irrefl (some m)))
        | inr kept ↦ rw (known, kept) (rank_lt_irrefl (trust_level_rank level), inr kept)
      ]
    ]

module _ {F : Type 0} (s : Server F) (ns agent : String) where
  level_found :
      (tr : TrustRequirements) (level : String) (t : Trace) (r : TrustGateResult)
      → ((on_option
            (below_minimum level tr)
            (above_minimum s ns (effective_autonomy level tr))
            (λ m. pure (rejection m)))
          t).0
        ≡ ok r
      → Gated tr level (s.on_get_policy t ns "default") r
  unfolding above_minimum ◌>>=◌
  level_found tr level t r h = elim (Option-cases (below_minimum level tr)) [
    | inl above ↦ inr (above, policy_answered s _ _ (get_policy ns "default" ∷ t) r (rw above at h))
    | inr (m, below) ↦ inl (m, below, cc (rw below at h))
  ]

  profile_answered :
      (tr : TrustRequirements) (answer : Outcome (TrustProfile F)) (t : Trace) (r : TrustGateResult)
      → ((profile_level s (profile_name s agent) answer >>= λ level.
            on_option
              (below_minimum level tr)
              (above_minimum s ns (effective_autonomy level tr))
              (λ m. pure (rejection m)))
          t).0
        ≡ ok r
      → Gated tr (level_of answer) (s.on_get_policy t ns "default") r
  unfolding profile_level wrap_error ◌>>=◌
  profile_answered tr (ok profile) t r h = level_found tr _ t r h
  profile_answered tr (err e) t r h = elim (Bool-cases (is_not_found e)) [
    | inl missing ↦ level_found tr observer_name t r (rw missing at h)
    | inr failed ↦ absurd (ground (arith, failed))
  ]

  module _ (t : Trace) where
    -- The trust level that the gate reads for the agent.
    abbrev pub level_read : String
    level_read = level_of (s.on_get_profile t ns (profile_name s agent))

    -- The graduation policy that the gate reads next.
    abbrev pub policy_read : Outcome (GraduationPolicy F)
    policy_read = s.on_get_policy (get_profile ns (profile_name s agent) ∷ t) ns "default"

    module _ (mode : String) (gr : GovernedResource) (tr : TrustRequirements) (r : TrustGateResult)
        (required : gr.trust_requirements ≡ some tr) (governed : str_eq mode "observe" ≡ false)
        (returned : (evaluate_trust_gate s ns agent mode gr t).0 ≡ ok r) where
      evaluate_trust_gate-Gated : Gated tr level_read policy_read r
      unfolding evaluate_trust_gate gate pure invoke attempt ◌>>=◌
      evaluate_trust_gate-Gated =
          profile_answered tr _ _ r (rw governed at (rw required at returned))

      above-MeetsMinimum : (level : String) → below_minimum level tr ≡ none → MeetsMinimum tr level
      unfolding below_minimum
      above-MeetsMinimum level e = elim (Bool-cases (str_eq tr.min_trust_level "")) [
        | inl unset ↦ inl unset
        | inr set ↦ elim (Option-cases (trust_level_rank tr.min_trust_level)) [
          | inl unknown ↦ absurd (ground (arith, set, unknown))
          | inr (m, known) ↦ inr (m, known, ground (arith, set, known))
        ]
      ]

      -- For a request that is not observe-only and a resource with trust requirements: where the
      -- gate does not reject, the resource has no minimum level, or its minimum is a known level
      -- and the level that the gate read is not below it.
      pub evaluate_trust_gate-MeetsMinimum : r.rejected ≡ false → MeetsMinimum tr level_read
      unfolding rejection
      evaluate_trust_gate-MeetsMinimum kept = elim evaluate_trust_gate-Gated [
        | inl (m, below, e) ↦ absurd (ground (arith, e))
        | inr (above, e) ↦ above-MeetsMinimum level_read above
      ]

      -- For a request that is not observe-only and a resource with trust requirements: where the
      -- gate does not reject, its annotations say can-execute "false", or the gate read a
      -- graduation policy whose first level of the name of the effective autonomy level may execute.
      pub evaluate_trust_gate-closed :
          r.rejected ≡ false
          → (has_value r.annotations can_execute_key "false" ≡ true)
            ⊎ ((p : GraduationPolicy F) × (policy_read ≡ ok p)
                × LetsExecute (effective_autonomy level_read tr) p.levels)
      unfolding rejection
      evaluate_trust_gate-closed kept = elim evaluate_trust_gate-Gated [
        | inl (m, below, e) ↦ absurd (ground (arith, e))
        | inr (above, e) ↦ rw e (closed_or_granted _ policy_read)
      ]

      -- For a request that is not observe-only and a resource with trust requirements: where the
      -- gate does not reject, it annotates an effective trust level that is above neither the level
      -- that it read nor, where that is a known level, the resource's maximum.
      pub evaluate_trust_gate-IsCapped :
          r.rejected ≡ false
          → (a : String) × (lookup effective_level_key r.annotations ≡ some a)
            × IsCapped level_read tr a
      unfolding rejection gate_annotations
      evaluate_trust_gate-IsCapped kept = elim evaluate_trust_gate-Gated [
        | inl (m, below, e) ↦ absurd (ground (arith, e))
        | inr (above, e) ↦
            (effective_autonomy level_read tr, rw e refl, effective_autonomy-IsCapped level_read tr)
      ]
