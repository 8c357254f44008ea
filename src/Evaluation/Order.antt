-- ===== src/Evaluation/Order.antt =====
-- The strictest demand under a change of the policy list: another order, or one more policy.
use mathlib.Core.List.{Permᴰ}
use native.Mathlib.Nat.{le_trans}
use aip_k8s.Prelude.{◌≤◌, String, List, [], ◌∷◌, ◌≡◌, refl, ap, ◌∙◌, arith}
use aip_k8s.Api.Policy.{Action, Rule, SafetyPolicy}
use aip_k8s.Api.Request.{AgentRequest, AffectedTarget, TargetContext}
use aip_k8s.Evaluation.{target_state}
use aip_k8s.Evaluation.Cel.{CelEnv, CelResult}
use aip_k8s.Evaluation.Effects.{
  effect, cascade_effect, rule_demands, policy_demands, target_demands, judged_targets,
  cascade_demands, demands,
}
use aip_k8s.Evaluation.State.{action_priority}
use aip_k8s.Evaluation.Strictest.{join, join-append, join_swap, join_mono, le-join}

module _ (env : CelEnv) where
  open env use {Vars, cascade_vars}

  module _ (eff : SafetyPolicy → Rule → CelResult → Action) (vars : Vars) where
    abbrev rules_of : SafetyPolicy → List Action
    rules_of p = rule_demands env eff vars p p.rules

    abbrev all : List SafetyPolicy → List Action
    all = policy_demands env eff vars

    policy_demands-cons :
        (a : Action) (p : SafetyPolicy) (ps : List SafetyPolicy)
        → join a (all (p ∷ ps)) ≡ join (join a (rules_of p)) (all ps)
    unfolding policy_demands
    policy_demands-cons a p ps = join-append a (rules_of p) (all ps)

    policy_demands-perm :
        {ps qs : List SafetyPolicy} → Permᴰ ps qs → (a : Action) → join a (all ps) ≡ join a (all qs)
    policy_demands-perm Permᴰ.nil a = refl
    policy_demands-perm (Permᴰ.cons {a = p} {b = q} {l₁ = ps} {l₂ = qs} e d) a = cc (
      policy_demands-cons a p ps,
      policy_demands-cons a q qs,
      ap rules_of e,
      policy_demands-perm d (join a (rules_of p)),
    )
    policy_demands-perm (Permᴰ.swap {a = p} {b = q} {a' = q'} {b' = p'} {l = l} e f) a = cc (
      policy_demands-cons a p (q ∷ l),
      policy_demands-cons (join a (rules_of p)) q l,
      policy_demands-cons a q' (p' ∷ l),
      policy_demands-cons (join a (rules_of q')) p' l,
      ap rules_of e,
      ap rules_of f,
      join_swap a (rules_of p) (rules_of q),
    )
    policy_demands-perm (Permᴰ.trans d f) a = policy_demands-perm d a ∙ policy_demands-perm f a

    policy_demands-le-cons :
        (a b : Action) (p : SafetyPolicy) (ps : List SafetyPolicy)
        → action_priority a ≤ action_priority b
        → action_priority (join a (all ps)) ≤ action_priority (join b (all (p ∷ ps)))
    policy_demands-le-cons a b p ps h =
        rw (policy_demands-cons b p ps)
          (join_mono a (join b (rules_of p)) (all ps) (le_trans h (le-join b (rules_of p))))

  module _ (ctxs : List (String × TargetContext)) where
    abbrev targets : List SafetyPolicy → List AffectedTarget → List Action
    targets = target_demands env ctxs

    abbrev on_target : AffectedTarget → List SafetyPolicy → List Action
    on_target t = policy_demands env cascade_effect (cascade_vars t (target_state env ctxs t))

    target_demands-cons :
        (a : Action) (ps : List SafetyPolicy) (t : AffectedTarget) (ts : List AffectedTarget)
        → join a (targets ps (t ∷ ts)) ≡ join (join a (on_target t ps)) (targets ps ts)
    unfolding target_demands
    target_demands-cons a ps t ts = join-append a (on_target t ps) (targets ps ts)

    target_demands-perm :
        {ps qs : List SafetyPolicy}
        → Permᴰ ps qs
        → (a : Action) (ts : List AffectedTarget) → join a (targets ps ts) ≡ join a (targets qs ts)
    unfolding target_demands
    target_demands-perm d a [] = refl
    target_demands-perm {ps} {qs} d a (t ∷ ts) =
        let vars = cascade_vars t (target_state env ctxs t) in
        cc (
          target_demands-cons a ps t ts,
          target_demands-cons a qs t ts,
          policy_demands-perm cascade_effect vars d a,
          target_demands-perm d (join a (on_target t ps)) ts,
        )

    target_demands-le-cons :
        (a b : Action) (p : SafetyPolicy) (ps : List SafetyPolicy) (ts : List AffectedTarget)
        → action_priority a ≤ action_priority b
        → action_priority (join a (targets ps ts)) ≤ action_priority (join b (targets (p ∷ ps) ts))
    unfolding target_demands
    target_demands-le-cons a b p ps [] h = join_mono a b [] h
    target_demands-le-cons a b p ps (t ∷ ts) h =
        let vars = cascade_vars t (target_state env ctxs t) in
        rw (target_demands-cons a ps t ts) (
          rw (target_demands-cons b (p ∷ ps) t ts) (
            target_demands-le-cons (join a (on_target t ps)) (join b (on_target t (p ∷ ps))) p ps ts
              (policy_demands-le-cons cascade_effect vars a b p ps h)))

  module _ (vars : Vars) (req : AgentRequest) (ctxs : List (String × TargetContext)) where
    abbrev all_demands : List SafetyPolicy → List Action
    all_demands = demands env vars req ctxs

    demands_parts :
        (a : Action) (ps : List SafetyPolicy)
        → join a (all_demands ps)
          ≡ join (join a (all effect vars ps)) (targets ctxs ps (judged_targets req))
    unfolding demands cascade_demands
    demands_parts a ps = join-append a (all effect vars ps) (targets ctxs ps (judged_targets req))

    pub demands-perm :
        {ps qs : List SafetyPolicy}
        → Permᴰ ps qs
        → (a : Action) → join a (all_demands ps) ≡ join a (all_demands qs)
    demands-perm {ps} {qs} d a = cc (
      demands_parts a ps,
      demands_parts a qs,
      policy_demands-perm effect vars d a,
      target_demands-perm ctxs d (join a (all effect vars ps)) (judged_targets req),
    )

    pub demands-le-cons :
        (a : Action) (p : SafetyPolicy) (ps : List SafetyPolicy)
        → action_priority (join a (all_demands ps))
          ≤ action_priority (join a (all_demands (p ∷ ps)))
    demands-le-cons a p ps = rw (demands_parts a ps) (
        rw (demands_parts a (p ∷ ps)) (
          target_demands-le-cons ctxs (join a (all effect vars ps))
            (join a (all effect vars (p ∷ ps))) p ps (judged_targets req)
            (policy_demands-le-cons effect vars a a p ps (omega arith))))
