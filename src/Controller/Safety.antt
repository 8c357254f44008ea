-- ===== src/Controller/Safety.antt =====
-- The rules that every call of the reconciler obeys: the lifecycle diagram, the OpsLock, the
-- approval gate and the trust gate.
use aip_k8s.Prelude.{String, Bool, true, false, ◌≡◌, ◌⊎◌, Option, some, List, ◌∷◌, has_value}
use aip_k8s.Api.Policy.{Action, allow, log, SafetyPolicy}
use aip_k8s.Api.Request
use aip_k8s.Api.Request.{
  Phase, unset, pending, approved, denied, executing, completed, failed, awaiting_verdict, expired,
  observed, unknown, HumanApproval, AgentRequest, TargetContext,
}
use aip_k8s.Controller.Types.{
  ok, Lease, Reader, Call, Trace, read_clock, get_lease, patch_status, create_lease, patch_lease,
  run_evaluation,
}
use aip_k8s.Controller.Env.{Env}
use aip_k8s.Controller.Lock.{is_expired, is_held_by, holder_identity, lease_name}
use aip_k8s.Controller.Admission.{is_approved, is_unset, has_condition}
use aip_k8s.Evaluation.State.{Result}

-- The phases that the reconciler still acts on.
abbrev pub is_live : Phase → Bool
is_live completed = false
is_live failed = false
is_live denied = false
is_live expired = false
is_live observed = false
is_live _ = true

abbrev pub is_pending : Phase → Bool
is_pending pending = true
is_pending _ = false

-- The lifecycle diagram: the phases that one status patch may lead from and to.
unfoldable pub edge : Phase → Phase → Bool
edge p denied = is_live p
edge p failed = is_live p
edge p completed = is_live p
edge unset pending = true
edge unset awaiting_verdict = true
edge unset observed = true
edge pending pending = true
edge pending approved = true
edge approved executing = true
edge awaiting_verdict expired = true
edge _ _ = false

-- What names a request in the cluster.
abbrev pub key : AgentRequest → String × String
key req = (req.name, req.namespace)

abbrev pub is_allowing : Action → Bool
is_allowing allow = true
is_allowing log = true
is_allowing _ = false

module _ (env : Env) where
  -- The lease of that name was read in this trace.
  pub data Got (n : String) (l : Lease) : Trace → Type 0 where
    got :
        {r : Reader} {ns : String} {t : Trace}
        → env.on_get_lease t r n ns ≡ ok l
        → Got n l (get_lease r n ns ∷ t)
    later : {c : Call} {t : Trace} → Got n l t → Got n l (c ∷ t)

  -- A reading of the clock showed that the lease had run out.
  pub data RanOut (l : Lease) : Trace → Type 0 where
    seen : {t : Trace} → is_expired (env.clock t) l ≡ true → RanOut l (read_clock ∷ t)
    later : {c : Call} {t : Trace} → RanOut l t → RanOut l (c ∷ t)

  -- The request was given the lock of its target: its lease was created, was found to be its own,
  -- or was taken over after it had run out.
  pub data Holds (req : AgentRequest) : Trace → Type 0 where
    created :
        {l : Lease} {t : Trace}
        → l.name ≡ lease_name env req
        → l.holder_identity ≡ some (holder_identity req)
        → env.on_create_lease t l ≡ ok tt
        → Holds req (create_lease l ∷ t)
    owned :
        {l : Lease} {r : Reader} {n ns : String} {t : Trace}
        → n ≡ lease_name env req
        → env.on_get_lease t r n ns ≡ ok l
        → is_held_by (holder_identity req) l ≡ true
        → Holds req (get_lease r n ns ∷ t)
    taken_over :
        {b l : Lease} {t : Trace}
        → Got (lease_name env req) b t
        → RanOut b t
        → l.holder_identity ≡ some (holder_identity req)
        → env.on_patch_lease t b l ≡ ok tt
        → Holds req (patch_lease b l ∷ t)
    later : {c : Call} {t : Trace} → Holds req t → Holds req (c ∷ t)

  -- The request passed the gate: a human approved it, its policies were evaluated and no approval is
  -- outstanding, or the evaluator has just answered Allow or Log.
  pub data Permitted (req : AgentRequest) : Trace → Type 0 where
    by_human :
        {t : Trace} (h : HumanApproval)
        → req.spec.human_approval ≡ some h
        → h.decision ≡ Request.Decision.approved
        → Permitted req t
    by_condition :
        {t : Trace}
        → has_condition env req "PolicyEvaluated" ≡ true
        → has_condition env req "RequiresApproval" ≡ false
        → Permitted req t
    by_evaluation :
        {r : AgentRequest} {ps : List SafetyPolicy} {c : Option TargetContext}
        {cs : List (String × TargetContext)} {t : Trace} (result : Result)
        → env.evaluate r ps c cs ≡ ok result
        → key r ≡ key req
        → is_allowing result.action ≡ true
        → Permitted req (run_evaluation r ps c cs ∷ t)
    later : {c : Call} {t : Trace} → Permitted req t → Permitted req (c ∷ t)

  -- A status patch from `b` to `n`, after the calls of `t`.
  pub record PatchSafe (b n : AgentRequest) (t : Trace) : Type 0 where
    pub legal : edge b.status.phase n.status.phase ≡ true
    pub locked : is_approved n.status.phase ≡ true → Holds b t
    pub permitted : is_approved n.status.phase ≡ true → Permitted b t
    pub gated :
        is_unset b.status.phase ≡ true
        → has_value b.annotations "governance.aip.io/can-execute" "false" ≡ true
        → is_pending n.status.phase ≡ false

  -- A lease keeps its holder unless it had run out.
  abbrev pub LeaseSafe : Lease → Lease → Trace → Type 0
  LeaseSafe b n t = (n.holder_identity ≡ b.holder_identity) ⊎ RanOut b t

  abbrev pub IsSafe : Call → Trace → Type 0
  IsSafe (patch_status b n) t = PatchSafe b n t
  IsSafe (patch_lease b n) t = LeaseSafe b n t
  IsSafe _ t = Unit
