-- ===== src/Evaluation/Outcome.antt =====
-- What `Evaluate` promises of its result, on every request and every list of policies.
use mathlib.Core.Logic.{∥∥₁_elim}
use mathlib.Core.List.{Perm}
use aip_k8s.Prelude.{
  ◌≤◌, ◌<◌, String, true, Option, none, some, List, ◌∷◌, ◌≡◌, ◌≢◌, ◌↔◌, refl, sym, ap, ◌∙◌, any,
  arith, length, Option-cases, inl, inr,
}
use aip_k8s.Api.Policy.{Action, allow, log, require_approval, deny, SafetyPolicy}
use aip_k8s.Api.Request.{AgentRequest, TargetContext}
use aip_k8s.Evaluation.{evaluate, finish, unparsable, eval_policies, evaluate_cascade}
use aip_k8s.Evaluation.Cel.{CelEnv}
use aip_k8s.Evaluation.State.{Eval, Result, start, action_priority}
use aip_k8s.Evaluation.Effects.{demands}
use aip_k8s.Evaluation.Strictest.{join, join-deny, is_deny}
use aip_k8s.Evaluation.Loops.{
  IsDenialCode, Answers, Answers-append, start-IsSound, eval_policies-Answers,
  evaluate_cascade-Answers,
}
use aip_k8s.Evaluation.Order.{demands-perm, demands-le-cons}

record IsCoded (r : Result) : Type 0 where
  denied : r.action ≡ deny → IsDenialCode r.code
  other : r.action ≢ deny → r.code ≡ ""

-- The code that an action comes with: one of three for a denial, and the empty one otherwise.
abbrev pub IsCodeOf : Action → String → Type 0
IsCodeOf deny code = IsDenialCode code
IsCodeOf allow code = code ≡ ""
IsCodeOf log code = code ≡ ""
IsCodeOf require_approval code = code ≡ ""

code_fits : (a : Action) (r : Result) → r.action ≡ a → IsCoded r → IsCodeOf a r.code
code_fits deny r e c = c.denied e
code_fits allow r e c = c.other (λ d. cc)
code_fits log r e c = c.other (λ d. cc)
code_fits require_approval r e c = c.other (λ d. cc)

Action-set : IsSet Action
Action-set = hlevel

finish-IsCoded : (e : Eval) → (e.action ≡ deny → IsDenialCode e.denial_code) → IsCoded (finish e)
unfolding finish
finish-IsCoded e h = record { denied = ground arith; other = ground arith }

unparsable-IsCoded : IsCoded unparsable
unfolding unparsable
unparsable-IsCoded = record { denied = λ _. inr (inl refl); other = λ h. absurd (h refl) }

is_deny_eq : (a : Action) → is_deny a ≡ true → a ≡ deny
is_deny_eq a h = ground arith

module _ (env : CelEnv) (req : AgentRequest) (target : Option TargetContext)
    (ctxs : List (String × TargetContext)) where
  open env use {Vars, request_vars}

  abbrev run : List SafetyPolicy → Result
  run ps = evaluate env req ps target ctxs

  abbrev final : Vars → List SafetyPolicy → Eval
  final vars ps = evaluate_cascade env req ps ctxs (eval_policies env vars ps start)

  final-Answers :
      (vars : Vars) (ps : List SafetyPolicy)
      → Answers start (demands env vars req ctxs ps) (final vars ps)
  unfolding demands
  final-Answers vars ps =
      let first = eval_policies-Answers env vars ps start start-IsSound in
      Answers-append first
        (evaluate_cascade-Answers env ctxs ps req (eval_policies env vars ps start) first.sound)

  run_parsed :
      {vars : Vars} (ps : List SafetyPolicy)
      → request_vars req target ≡ some vars
      → run ps ≡ finish (final vars ps)
  unfolding evaluate
  run_parsed ps q = rw (q, evaluate)

  run_unparsed : (ps : List SafetyPolicy) → request_vars req target ≡ none → run ps ≡ unparsable
  unfolding evaluate
  run_unparsed ps q = rw (q, evaluate)

  -- When the request converts to CEL variables, the action is the strictest of all that the rules
  -- ask for on the request and on its judged cascade targets, and `allow` if they ask for nothing.
  pub evaluate-strictest :
      {vars : Vars} (ps : List SafetyPolicy)
      → request_vars req target ≡ some vars
      → (evaluate env req ps target ctxs).action ≡ join allow (demands env vars req ctxs ps)
  unfolding finish start
  evaluate-strictest {vars} ps q = rw (run_parsed ps q) (final-Answers vars ps).action_eq

  -- When the request converts to CEL variables, the result is `deny` exactly if some rule asks for
  -- a denial: a match of a denying rule, or a failed expression of a policy that fails closed.
  pub evaluate-deny :
      {vars : Vars} (ps : List SafetyPolicy)
      → request_vars req target ≡ some vars
      → ((evaluate env req ps target ctxs).action ≡ deny)
        ↔ (any is_deny (demands env vars req ctxs ps) ≡ true)
  evaluate-deny {vars} ps q =
      let xs = demands env vars req ctxs ps in
      let strict = evaluate-strictest ps q in
      let found = join-deny allow xs in
      (
        λ h. sym found ∙ ap is_deny (sym strict ∙ h),
        λ h. strict ∙ is_deny_eq (join allow xs) (found ∙ h),
      )

  -- The action does not depend on the order in which the API server lists the policies.
  pub evaluate-perm :
      {ps qs : List SafetyPolicy}
      → Perm ps qs
      → (evaluate env req ps target ctxs).action ≡ (evaluate env req qs target ctxs).action
  evaluate-perm {ps} {qs} p = elim (Option-cases (request_vars req target)) [
    | inl q ↦ rw (run_unparsed ps q) (rw (run_unparsed qs q))
    | inr (vars, q) ↦ ∥∥₁_elim p (Action-set _ _) (λ d.
        evaluate-strictest ps q
        ∙ demands-perm env vars req ctxs d allow
        ∙ sym (evaluate-strictest qs q))
  ]

  -- One more policy, at the head of the list, never makes the action less strict.
  pub evaluate-le-cons :
      (p : SafetyPolicy) (ps : List SafetyPolicy)
      → action_priority (evaluate env req ps target ctxs).action
        ≤ action_priority (evaluate env req (p ∷ ps) target ctxs).action
  evaluate-le-cons p ps = elim (Option-cases (request_vars req target)) [
    | inl q ↦ rw (run_unparsed ps q) (rw (run_unparsed (p ∷ ps) q) (omega arith))
    | inr (vars, q) ↦
        rw (evaluate-strictest ps q)
          (rw (evaluate-strictest (p ∷ ps) q) (demands-le-cons env vars req ctxs allow p ps))
  ]

  -- A denial has the code POLICY_VIOLATION, EVALUATION_FAILURE or CASCADE_DENIED, and any other
  -- action has the empty code; this holds too where the request does not convert.
  pub evaluate-IsCodeOf :
      (ps : List SafetyPolicy)
      → IsCodeOf (evaluate env req ps target ctxs).action (evaluate env req ps target ctxs).code
  evaluate-IsCodeOf ps =
      code_fits (run ps).action (run ps) refl (elim (Option-cases (request_vars req target)) [
        | inl q ↦ rw (run_unparsed ps q) unparsable-IsCoded
        | inr (vars, q) ↦
            rw (run_parsed ps q)
              (finish-IsCoded (final vars ps) (final-Answers vars ps).sound.coded)
      ])

  -- When the request converts to CEL variables, an action other than `allow` comes with at least
  -- one recorded policy result.
  pub evaluate-explained :
      {vars : Vars} (ps : List SafetyPolicy)
      → request_vars req target ≡ some vars
      → (evaluate env req ps target ctxs).action ≢ allow
      → 0 < length (evaluate env req ps target ctxs).policy_results
  evaluate-explained {vars} ps q h =
      let e = run_parsed ps q in
      rw e (
        unfold finish in
        (final-Answers vars ps).sound.explained
          (λ z. h (ap (λ (r : Result). r.action) e ∙ unfold finish in z)))
