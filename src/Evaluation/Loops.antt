-- ===== src/Evaluation/Loops.antt =====
-- The loops of evaluator.go compute the strictest demand, and explain what is not allowed.
use aip_k8s.Prelude.{
  ◌<◌, String, true, false, Option, none, some, List, [], ◌∷◌, ◌++◌, ◌≡◌, ◌≢◌, ◌⊎◌, refl, ap, sym,
  ◌∙◌, arith, length, length-append, str_eq, Bool-cases, inl, inr,
}
use aip_k8s.Api.Policy.{
  Action, allow, deny, FailureMode, fail_closed, fail_open, Rule, SafetyPolicy, action_name,
}
use aip_k8s.Api.Request.{AgentRequest, AffectedTarget, TargetContext}
use aip_k8s.Evaluation.{
  failure_mode_of, result_for, target_state, rule_failed, rule_matched, keep_result, rule_outcome,
  cascade_failed, cascade_matched, cascade_outcome, eval_rules, eval_policies, cascade_rules,
  cascade_policies, cascade_targets, evaluate_cascade, policy_violation, evaluation_failure,
  cascade_denied,
}
use aip_k8s.Evaluation.Cel.{CelEnv, CelResult, value, failure}
use aip_k8s.Evaluation.State.{Eval, action_priority, append_result, start}
use aip_k8s.Evaluation.Effects.{
  effect, cascade_effect, on_failure, only_deny, rule_demands, policy_demands, target_demands,
  cascade_demands,
}
use aip_k8s.Evaluation.Strictest.{stricter, stricter_allow, join, join-append}

abbrev pub IsDenialCode : String → Type 0
IsDenialCode c = (c ≡ policy_violation) ⊎ (c ≡ evaluation_failure) ⊎ (c ≡ cascade_denied)

-- What holds between two rules: the priority belongs to the action, a denial has a code, and an
-- action other than `allow` has a recorded result.
pub record IsSound (e : Eval) : Type 0 where
  pub priority : e.highest_priority ≡ action_priority e.action
  pub coded : e.action ≡ deny → IsDenialCode e.denial_code
  pub explained : e.action ≢ allow → 0 < length e.policy_results

pub start-IsSound : IsSound start
unfolding start
start-IsSound = record { priority = refl; coded = λ h. cc; explained = λ h. absurd (h refl) }

-- A loop result `e'` from `e` under a list of demands.
pub record Answers (e : Eval) (xs : List Action) (e' : Eval) : Type 0 where
  pub action_eq : e'.action ≡ join e.action xs
  pub sound : IsSound e'

Answers-nil : {e : Eval} → IsSound e → Answers e [] e
unfolding join
Answers-nil h = record { action_eq = refl; sound = h }

pub Answers-append :
    {e e' e'' : Eval} {xs ys : List Action}
    → Answers e xs e'
    → Answers e' ys e''
    → Answers e (xs ++ ys) e''
Answers-append {e} {xs = xs} {ys = ys} h k = record {
  action_eq = cc (join-append e.action xs ys, h.action_eq, k.action_eq);
  sound = k.sound;
}

pos-append {ℓ} : {A : Type ℓ} (xs : List A) (y : A) → 0 < length (xs ++ y ∷ [])
pos-append xs y = omega (arith, length-append xs (y ∷ []))

-- The three parts of `Answers` for one step with demand `a`.
answer :
    {e e' : Eval} (a : Action)
    → IsSound e
    → e'.action ≡ stricter e.action a
    → IsSound e'
    → Answers e (a ∷ []) e'
unfolding join
answer a h p s = record { action_eq = p; sound = s }

rule_failed-Answers :
    (p : SafetyPolicy) (r : Rule) (err : String) (m : FailureMode) (e : Eval)
    → IsSound e
    → Answers e (on_failure m ∷ []) (rule_failed p r err m e)
unfolding rule_failed join stricter append_result
rule_failed-Answers p r err fail_closed e h = record {
  action_eq = ground arith;
  sound = record { priority = ground arith; coded = ground arith; explained = λ _. pos-append _ _ };
}
rule_failed-Answers p r err fail_open e h = record {
  action_eq = ground arith;
  sound = record { priority = h.priority; coded = h.coded; explained = λ _. pos-append _ _ };
}

rule_matched-action :
    (p : SafetyPolicy) (r : Rule) (e : Eval)
    → IsSound e
    → (rule_matched p r e).action ≡ stricter e.action r.action
unfolding rule_matched stricter
rule_matched-action p r e h = ground arith

rule_matched-coded :
    (p : SafetyPolicy) (r : Rule) (e : Eval)
    → IsSound e
    → (rule_matched p r e).action ≡ deny
    → IsDenialCode (rule_matched p r e).denial_code
unfolding rule_matched stricter
rule_matched-coded p r e h = ground arith

rule_matched-priority :
    (p : SafetyPolicy) (r : Rule) (e : Eval)
    → IsSound e
    → (rule_matched p r e).highest_priority ≡ action_priority (rule_matched p r e).action
unfolding rule_matched
rule_matched-priority p r e h = ground arith

rule_matched_idle :
    (p : SafetyPolicy) (r : Rule) (e : Eval) → r.action ≡ allow → IsSound e → rule_matched p r e ≡ e
unfolding rule_matched
rule_matched_idle p r e q h = ground arith

matched-explained :
    (p : SafetyPolicy) (r : Rule) (a : Action) (e : Eval)
    → r.action ≡ a
    → IsSound e
    → let e' = keep_result (result_for p r (action_name a)) (rule_matched p r e) in
      e'.action ≢ allow → 0 < length e'.policy_results
unfolding keep_result rule_matched
matched-explained p r allow e q h k =
    let i = rule_matched_idle p r e q h in
    rw i (h.explained (λ z. k (ap (λ (x : Eval). x.action) i ∙ z)))
matched-explained p r _ e q h k = pos-append _ _

keep_result-same :
    (p : SafetyPolicy) (r : Rule) (s : String) (e : Eval)
    → let e' = keep_result (result_for p r s) e in
      (e'.action ≡ e.action)
      × (e'.denial_code ≡ e.denial_code)
      × (e'.highest_priority ≡ e.highest_priority)
unfolding keep_result
keep_result-same p r s e = ground arith

rule_outcome-Answers :
    (p : SafetyPolicy) (r : Rule) (c : CelResult) (e : Eval)
    → IsSound e
    → Answers e (effect p r c ∷ []) (rule_outcome p r c e)
unfolding rule_outcome effect join
rule_outcome-Answers p r (failure err) e h = rule_failed-Answers p r err (failure_mode_of p) e h
rule_outcome-Answers p r (value true) e h =
    let m = rule_matched p r e in
    let (same_action, same_code, same_priority) = keep_result-same p r (action_name r.action) m in
    answer r.action h (same_action ∙ rule_matched-action p r e h) (record {
      priority = cc (same_action, same_priority, rule_matched-priority p r e h);
      coded = λ d. rw same_code (rule_matched-coded p r e h (sym same_action ∙ d));
      explained = matched-explained p r r.action e refl h;
    })
rule_outcome-Answers p r (value false) e h = answer allow h (sym (stricter_allow e.action)) h

cascade_failed-Answers :
    (p : SafetyPolicy) (r : Rule) (err : String) (m : FailureMode) (e : Eval)
    → IsSound e
    → Answers e (on_failure m ∷ []) (cascade_failed p r err m e)
unfolding cascade_failed stricter
cascade_failed-Answers p r err fail_closed e h =
    answer deny h (ground arith)
      (record { priority = ground arith; coded = ground arith; explained = λ _. pos-append _ _ })
cascade_failed-Answers p r err fail_open e h = answer allow h (sym (stricter_allow e.action)) h

cascade_matched-Answers :
    (p : SafetyPolicy) (r : Rule) (a : Action) (e : Eval)
    → IsSound e
    → Answers e (only_deny a ∷ []) (cascade_matched p r a e)
unfolding cascade_matched stricter
cascade_matched-Answers p r deny e h =
    answer deny h (ground arith)
      (record { priority = ground arith; coded = ground arith; explained = λ _. pos-append _ _ })
cascade_matched-Answers p r _ e h = answer allow h (sym (stricter_allow e.action)) h

cascade_outcome-Answers :
    (p : SafetyPolicy) (r : Rule) (c : CelResult) (e : Eval)
    → IsSound e
    → Answers e (cascade_effect p r c ∷ []) (cascade_outcome p r c e)
unfolding cascade_outcome cascade_effect
cascade_outcome-Answers p r (failure err) e h =
    cascade_failed-Answers p r err (failure_mode_of p) e h
cascade_outcome-Answers p r (value true) e h = cascade_matched-Answers p r r.action e h
cascade_outcome-Answers p r (value false) e h = answer allow h (sym (stricter_allow e.action)) h

module _ (env : CelEnv) where
  open env use {Vars, cascade_vars, evaluate_expression}

  eval_rules-Answers :
      (p : SafetyPolicy) (vars : Vars) (rs : List Rule) (e : Eval)
      → IsSound e
      → Answers e (rule_demands env effect vars p rs) (eval_rules env p vars rs e)
  unfolding rule_demands eval_rules
  eval_rules-Answers p vars [] e h = Answers-nil h
  eval_rules-Answers p vars (r ∷ rs) e h =
      let c = evaluate_expression r.expression vars in
      let step = rule_outcome-Answers p r c e h in
      Answers-append step (eval_rules-Answers p vars rs (rule_outcome p r c e) step.sound)

  pub eval_policies-Answers :
      (vars : Vars) (ps : List SafetyPolicy) (e : Eval)
      → IsSound e
      → Answers e (policy_demands env effect vars ps) (eval_policies env vars ps e)
  unfolding policy_demands eval_policies
  eval_policies-Answers vars [] e h = Answers-nil h
  eval_policies-Answers vars (p ∷ ps) e h =
      let step = eval_rules-Answers p vars p.rules e h in
      Answers-append step
        (eval_policies-Answers vars ps (eval_rules env p vars p.rules e) step.sound)

  cascade_rules-Answers :
      (p : SafetyPolicy) (vars : Vars) (rs : List Rule) (e : Eval)
      → IsSound e
      → Answers e (rule_demands env cascade_effect vars p rs) (cascade_rules env p vars rs e)
  unfolding rule_demands cascade_rules
  cascade_rules-Answers p vars [] e h = Answers-nil h
  cascade_rules-Answers p vars (r ∷ rs) e h =
      let c = evaluate_expression r.expression vars in
      let step = cascade_outcome-Answers p r c e h in
      Answers-append step (cascade_rules-Answers p vars rs (cascade_outcome p r c e) step.sound)

  cascade_policies-Answers :
      (vars : Vars) (ps : List SafetyPolicy) (e : Eval)
      → IsSound e
      → Answers e (policy_demands env cascade_effect vars ps) (cascade_policies env vars ps e)
  unfolding policy_demands cascade_policies
  cascade_policies-Answers vars [] e h = Answers-nil h
  cascade_policies-Answers vars (p ∷ ps) e h =
      let step = cascade_rules-Answers p vars p.rules e h in
      Answers-append step
        (cascade_policies-Answers vars ps (cascade_rules env p vars p.rules e) step.sound)

  module _ (ctxs : List (String × TargetContext)) (ps : List SafetyPolicy) where
    cascade_targets-Answers :
        (ts : List AffectedTarget) (e : Eval)
        → IsSound e
        → Answers e (target_demands env ctxs ps ts) (cascade_targets env ctxs ps ts e)
    unfolding target_demands cascade_targets
    cascade_targets-Answers [] e h = Answers-nil h
    cascade_targets-Answers (t ∷ ts) e h =
        let vars = cascade_vars t (target_state env ctxs t) in
        let step = cascade_policies-Answers vars ps e h in
        Answers-append step (cascade_targets-Answers ts (cascade_policies env vars ps e) step.sound)

    model-Answers :
        (req : AgentRequest) (m : Option (List AffectedTarget)) (e : Eval)
        → req.spec.cascade_model ≡ m
        → IsSound e
        → Answers e (cascade_demands env req ctxs ps) (evaluate_cascade env req ps ctxs e)
    unfolding cascade_demands evaluate_cascade target_demands
    model-Answers req none e q h = rw q (Answers-nil h)
    model-Answers req (some ts) e q h = elim (Bool-cases (str_eq req.spec.action "escalate")) [
      | inl b ↦ rw q (rw b (Answers-nil h))
      | inr b ↦ rw q (rw b (cascade_targets-Answers ts e h))
    ]

    pub evaluate_cascade-Answers :
        (req : AgentRequest) (e : Eval)
        → IsSound e
        → Answers e (cascade_demands env req ctxs ps) (evaluate_cascade env req ps ctxs e)
    evaluate_cascade-Answers req e h = model-Answers req req.spec.cascade_model e refl h
