-- ===== src/Controller/Running/Safe.antt =====
-- `reconcileApproved`, `reconcileExecuting` and `reconcileAwaitingVerdict` obey the rules.
use aip_k8s.Prelude.{true, ◌≡◌, refl, ap, inl}
use aip_k8s.Api.Request.{awaiting_verdict, expired, AgentRequest}
use aip_k8s.Controller.Types.{Outcome, ok, err, ℤ, Lease}
use aip_k8s.Controller.Env.{Env}
use aip_k8s.Controller.Monad.{M, patch_lease_m}
use aip_k8s.Effects.Logic.{Keeps, Keeps-invoke, Keeps-if}
use aip_k8s.Controller.Safety.{IsSafe, edge, is_live}
use aip_k8s.Controller.Admission.Safe.{Always, safe_rules, to_failed, to_completed, to_phase}
use aip_k8s.Controller.Running.{
  heartbeat, approved_timed_out, approved_since, reconcile_approved, lock_lost, heartbeat_missed,
  lease_watched, lease_checked, executing_lease, reconcile_executing, graded, ungraded_expired,
  ungraded, reconcile_awaiting_verdict,
}

module _ (env : Env) where
  abbrev Safe : {A : Type 0} → M A → Type 0
  Safe m = Keeps (IsSafe env) Always m

  -- A heartbeat leaves the holder as it is.
  renew_lease-Safe :
      (b n : Lease) → n.holder_identity ≡ b.holder_identity → Safe (patch_lease_m env b n)
  renew_lease-Safe b n h = Keeps-invoke _ _ (λ t _. inl h) (λ _ _. tt)

  heartbeat-Safe : (req : AgentRequest) (r : Outcome Lease) → Safe (heartbeat env req r)
  unfolding heartbeat
  heartbeat-Safe req (ok l) = search (safe_rules, renew_lease-Safe) depth 12
  heartbeat-Safe req (err e) = search safe_rules

  module _ (req : AgentRequest) (live : is_live req.status.phase ≡ true) where
    approved_timed_out-Safe : Safe (approved_timed_out env req)
    unfolding approved_timed_out
    approved_timed_out-Safe = search (safe_rules, to_failed env req live) depth 16

    pub reconcile_approved-Safe : Safe (reconcile_approved env req)
    unfolding reconcile_approved approved_since
    reconcile_approved-Safe = search (safe_rules, approved_timed_out-Safe, heartbeat-Safe) depth 12

    lock_lost-Safe : (l : Lease) → Safe (lock_lost env req l)
    unfolding lock_lost
    lock_lost-Safe l = search (safe_rules, to_failed env req live) depth 16

    heartbeat_missed-Safe : (l : Lease) → Safe (heartbeat_missed env req l)
    unfolding heartbeat_missed
    heartbeat_missed-Safe l = search (safe_rules, to_failed env req live) depth 16

    lease_watched-Safe : (l : Lease) (s : ℤ) → Safe (lease_watched env req l s)
    unfolding lease_watched
    lease_watched-Safe l s = search (safe_rules, heartbeat_missed-Safe) depth 12

    executing_lease-Safe : (r : Outcome Lease) → Safe (executing_lease env req r)
    unfolding executing_lease lease_checked
    executing_lease-Safe (ok l) = search (safe_rules, lock_lost-Safe, lease_watched-Safe) depth 12
    executing_lease-Safe (err e) = search safe_rules

    pub reconcile_executing-Safe : Safe (reconcile_executing env req)
    unfolding reconcile_executing
    reconcile_executing-Safe = search (safe_rules, executing_lease-Safe) depth 12

    graded-Safe : Safe (graded env req)
    unfolding graded
    graded-Safe = search (safe_rules, to_completed env req live) depth 12

  module _ (req : AgentRequest) (awaits : req.status.phase ≡ awaiting_verdict) where
    ungraded_expired-Safe : Safe (ungraded_expired env req)
    unfolding ungraded_expired edge
    ungraded_expired-Safe =
        search (safe_rules, to_phase env req expired (rw awaits refl) refl refl) depth 12

    ungraded-Safe : Safe (ungraded env req)
    unfolding ungraded
    ungraded-Safe = search (safe_rules, ungraded_expired-Safe) depth 12

    pub reconcile_awaiting_verdict-Safe : Safe (reconcile_awaiting_verdict env req)
    unfolding reconcile_awaiting_verdict
    reconcile_awaiting_verdict-Safe = Keeps-if _ ungraded-Safe (graded-Safe req (ap is_live awaits))
