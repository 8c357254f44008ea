-- ===== src/Controller/Admission/Safe.antt =====
-- The steps before the state machine obey the rules.
use aip_k8s.Prelude.{String, ◌≡◌, refl, ap, ◌∙◌, true, false, ◌&&◌, arith}
use aip_k8s.Api.Request.{Phase, unset, denied, completed, failed, executing, Message, AgentRequest}
use aip_k8s.Controller.Types.{ok, Trace, patch_status}
use aip_k8s.Controller.Env.{Env}
use aip_k8s.Controller.Monad.{M, patch_status_m}
use aip_k8s.Effects.Logic.{Keeps, Keeps-pure, Keeps-invoke, Keeps-if, Keeps-when}
use aip_k8s.Controller.Safety.{IsSafe, PatchSafe, edge, is_live, is_pending, key}
use aip_k8s.Controller.Quiet.{Grows, quiet_calls, metric-Quiet}
use aip_k8s.Controller.Audit.Quiet.{emit_audit_record-Quiet}
use aip_k8s.Controller.Lock.Acquire.{release_lock-Quiet}
use aip_k8s.Controller.Admission.{
  is_unset, is_approved, has_condition, deny_integrity, complete, fail, execute,
  check_agent_transitions,
}

-- The API server answers a status patch with the same object, in the phase that was written.
abbrev pub Answers : Env → Type 0
Answers env =
    (t : Trace) (b n r : AgentRequest)
    → env.on_patch_status t b n ≡ ok r
    → (r.status.phase ≡ n.status.phase) × (key r ≡ key n)

abbrev pub Always : Trace → Type 0
Always t = Unit

pub always : Grows Always
always c t e = tt

-- A patch to a phase other than `approved`, out of a phase other than `unset`.
pub patch_onward :
    {env : Env} {b n : AgentRequest} {t : Trace}
    → edge b.status.phase n.status.phase ≡ true
    → is_approved n.status.phase ≡ false
    → is_pending n.status.phase ≡ false
    → PatchSafe env b n t
patch_onward legal other later = record {
  legal = legal;
  locked = λ h. cc;
  permitted = λ h. cc;
  gated = λ u g. later;
}

pub edge-denied : (p : Phase) → edge p denied ≡ is_live p
unfolding edge
edge-denied p = ground arith

pub edge-failed : (p : Phase) → edge p failed ≡ is_live p
unfolding edge
edge-failed p = ground arith

pub edge-completed : (p : Phase) → edge p completed ≡ is_live p
unfolding edge
edge-completed p = ground arith

edge-executing : (p : Phase) → is_approved p ≡ true → edge p executing ≡ true
unfolding edge
edge-executing p h = ground arith

pub edge-unset : (p q : Phase) → is_unset p ≡ true → edge p q ≡ edge unset q
unfolding edge
edge-unset p q h = ground arith

pub unset-is_live : (p : Phase) → is_unset p ≡ true → is_live p ≡ true
unset-is_live p h = ground arith

pub patch_status-Safe :
    {env : Env} (b n : AgentRequest)
    → ((t : Trace) → PatchSafe env b n t)
    → Keeps (IsSafe env) Always (patch_status_m env b n)
patch_status-Safe b n p = Keeps-invoke _ _ (λ t _. p t) (always (patch_status b n))

pub ruleset safe_rules = (quiet_calls, always, emit_audit_record-Quiet, release_lock-Quiet)

module _ (env : Env) where
  abbrev pub Safe : {A : Type 0} → M A → Type 0
  Safe m = Keeps (IsSafe env) Always m

  -- A patch of `req` to the phase `q`.
  pub to_phase :
      (req : AgentRequest) (q : Phase)
      → edge req.status.phase q ≡ true
      → is_approved q ≡ false
      → is_pending q ≡ false
      → (n : AgentRequest) → n.status.phase ≡ q
      → Safe (patch_status_m env req n)
  to_phase req q legal other later n e =
      patch_status-Safe req n (λ t. patch_onward (rw e legal) (rw e other) (rw e later))

  module _ (req : AgentRequest) where
    module _ (live : is_live req.status.phase ≡ true) where
      pub to_denied : (n : AgentRequest) → n.status.phase ≡ denied → Safe (patch_status_m env req n)
      to_denied = to_phase req denied (edge-denied _ ∙ live) refl refl

      pub to_failed : (n : AgentRequest) → n.status.phase ≡ failed → Safe (patch_status_m env req n)
      to_failed = to_phase req failed (edge-failed _ ∙ live) refl refl

      pub to_completed :
          (b n : AgentRequest)
          → b.status.phase ≡ req.status.phase
          → n.status.phase ≡ completed
          → Safe (patch_status_m env b n)
      to_completed b n q = to_phase b completed (edge-completed _ ∙ ap is_live q ∙ live) refl refl n

      complete-Safe : Safe (complete env req)
      unfolding complete
      complete-Safe = search (safe_rules, to_completed) depth 12

      fail-Safe : Safe (fail env req)
      unfolding fail
      fail-Safe = search (safe_rules, to_failed) depth 12

      deny_integrity-Safe : (code : String) (m : Message) → Safe (deny_integrity env req code m)
      unfolding deny_integrity
      deny_integrity-Safe code m = search (safe_rules, to_denied) depth 12

    execute-Safe : is_approved req.status.phase ≡ true → Safe (execute env req)
    unfolding execute
    execute-Safe h =
        search (safe_rules, to_phase req executing (edge-executing _ h) refl refl) depth 12

    pub check_agent_transitions-Safe :
        is_live req.status.phase ≡ true → Safe (check_agent_transitions env req)
    unfolding check_agent_transitions
    check_agent_transitions-Safe live = Keeps-if _ (complete-Safe live) (
        Keeps-if _ (fail-Safe live) (
          Keeps-when (has_condition env req "Executing" && is_approved req.status.phase)
            (λ h. execute-Safe (ground arith)) (λ _. Keeps-pure false)))
