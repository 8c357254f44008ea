-- ===== src/Controller/Decision/Safe.antt =====
-- The decisions on a pending request obey the rules: an approval comes with the lock and the permit.
use aip_k8s.Prelude.{◌≡◌, refl, ap, true, some}
use aip_k8s.Api.Request.{Phase, pending, approved, Decision, HumanApproval, AgentRequest}
use aip_k8s.Controller.Types.{Lease, Trace}
use aip_k8s.Controller.Env.{Env}
use aip_k8s.Controller.Monad.{patch_status_m}
use aip_k8s.Effects.Logic.{
  Keeps, Keeps-invoke, Runs, Runs-pure, Runs-bind, Runs-keep, Runs-if, Runs-option, Runs-pre,
  Runs-weaken,
}
use aip_k8s.Controller.Safety
use aip_k8s.Controller.Safety.{IsSafe, PatchSafe, Holds, Permitted, edge, is_live, is_allowing, key}
use aip_k8s.Controller.Quiet.{Grows, quiet_calls}
use aip_k8s.Controller.Audit.Quiet.{emit_audit_record-Quiet}
use aip_k8s.Controller.Lock.{Acquisition, acquired, contended}
use aip_k8s.Controller.Lock.Acquire.{Acquired, acquire_lease-Runs}
use aip_k8s.Controller.Admission.{is_approved, with_conditions}
use aip_k8s.Controller.Admission.Safe.{Always, safe_rules, to_denied}
use aip_k8s.Controller.Decision.{
  lock_denied, lock_contended, lock_held, lock_settled, handle_lock_acquisition, human_denied,
  human_decided, handle_approval_wait,
}

module _ (env : Env) where
  pub Permitted-grow : (req : AgentRequest) → Grows (Permitted env req)
  Permitted-grow req c t p = Safety.Permitted.later p

  module _ (req : AgentRequest) (waiting : req.status.phase ≡ pending) where
    pub waiting-is_live : is_live req.status.phase ≡ true
    waiting-is_live = ap is_live waiting

    -- The lock and the permit of the request.
    abbrev Granted : Trace → Type 0
    Granted t = Holds env req t × Permitted env req t

    Granted-grow : Grows Granted
    Granted-grow c t e = (Safety.Holds.later e.0, Safety.Permitted.later e.1)

    approve :
        (n : AgentRequest)
        → n.status.phase ≡ approved
        → Keeps (IsSafe env) Granted (patch_status_m env req n)
    unfolding edge
    approve n e =
        Keeps-invoke _ _
          (λ t g. record {
            legal = rw (e, waiting) refl;
            locked = λ h. g.0;
            permitted = λ h. g.1;
            gated = λ u h. rw e refl;
          })
          (λ t g. Granted-grow _ t g)

    lock_held-Safe : (from : Phase) → Keeps (IsSafe env) Granted (lock_held env req from)
    unfolding lock_held
    lock_held-Safe from =
        search (quiet_calls, Granted-grow, emit_audit_record-Quiet, approve) depth 12

    lock_denied-Safe :
        (from : Phase) (l : Lease) → Keeps (IsSafe env) Always (lock_denied env req from l)
    unfolding lock_denied
    lock_denied-Safe from l = search (safe_rules, to_denied env req waiting-is_live) depth 14

    lock_contended-Safe :
        (from : Phase) (l : Lease) → Keeps (IsSafe env) Always (lock_contended env req from l)
    unfolding lock_contended
    lock_contended-Safe from l = search (safe_rules, lock_denied-Safe) depth 12

    lock_settled-Safe :
        (from : Phase) (a : Acquisition)
        → Runs
            (IsSafe env)
            (Acquired env req (Permitted-grow req) a)
            (lock_settled env req from a)
            (λ _. Always)
    unfolding lock_settled
    lock_settled-Safe from acquired = Runs-weaken (Runs-keep (lock_held-Safe from)) (λ _ _ _. tt)
    lock_settled-Safe from (contended l) =
        Runs-pre (Runs-keep (lock_contended-Safe from l)) (λ _ _. tt)

    pub handle_lock_acquisition-Safe :
        (from : Phase)
        → Runs (IsSafe env) (Permitted env req) (handle_lock_acquisition env req from) (λ _. Always)
    unfolding handle_lock_acquisition
    handle_lock_acquisition-Safe from =
        Runs-if (is_approved req.status.phase) (λ _. Runs-pure _ (λ _ _. tt))
          (λ _.
            Runs-bind (acquire_lease-Runs env req (Permitted-grow req)) (lock_settled-Safe from))

    human_denied-Safe : Keeps (IsSafe env) Always (human_denied env req)
    unfolding human_denied
    human_denied-Safe = search (safe_rules, to_denied env req waiting-is_live) depth 14

  module _ (req : AgentRequest) (waiting : req.status.phase ≡ pending) where
    human_decided-Safe :
        (h : HumanApproval)
        → req.spec.human_approval ≡ some h
        → (d : Decision) → h.decision ≡ d
        → Runs (IsSafe env) Always (human_decided env req d) (λ _. Always)
    unfolding human_decided
    human_decided-Safe h q Decision.approved e =
        Runs-pre (handle_lock_acquisition-Safe (with_conditions _ req) waiting _)
          (λ t _. Safety.Permitted.by_human h q e)
    human_decided-Safe h q Decision.denied e = Runs-keep (human_denied-Safe req waiting)

    pub handle_approval_wait-Safe :
        Runs (IsSafe env) Always (handle_approval_wait env req) (λ _. Always)
    unfolding handle_approval_wait
    handle_approval_wait-Safe =
        Runs-option req.spec.human_approval (λ _. Runs-pure _ (λ _ _. tt))
          (λ h q. human_decided-Safe h q h.decision refl)
