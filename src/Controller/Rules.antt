-- ===== src/Controller/Rules.antt =====
-- What the reconciler of internal/controller/agentrequest_controller.go promises over any series of
-- reconciles, whatever the cluster answers.
use aip_k8s.Prelude.{String, Bool, true, false, refl, ◌≡◌, ◌⊎◌, inl, inr, List, [], ◌∷◌, has_value}
use aip_k8s.Api.Request.{AgentRequest}
use aip_k8s.Controller.Types.{Call, Trace, Lease, patch_status, patch_lease}
use aip_k8s.Controller.Env.{Env}
use aip_k8s.Effects.Logic.{Hist, Hist-map}
use aip_k8s.Controller.Safety.{IsSafe, PatchSafe, Holds, Permitted, RanOut, edge, is_pending}
use aip_k8s.Controller.Admission.{is_approved, is_unset}
use aip_k8s.Controller.Admission.Safe.{Answers}
use aip_k8s.Controller.Reconcile.{reconcile}
use aip_k8s.Controller.Reconcile.Safe.{reconcile-Safe}

-- The worker's loop over the names and namespaces that the queue delivers.
pub run : Env → List (String × String) → Trace → Trace
run env [] t = t
run env ((name, namespace) ∷ queue) t = run env queue (reconcile env name namespace t).1

if_true : {A : Type 0} (b : Bool) → (b ≡ true → A) → (b ≡ false) ⊎ A
if_true true f = inr (f refl)
if_true false f = inl refl

-- A rule for the status patches of a trace, which take a base and the object.
abbrev pub OnStatus : (AgentRequest → AgentRequest → Trace → Type 0) → Call → Trace → Type 0
OnStatus R (patch_status b n) t = R b n t
OnStatus R _ t = Unit

pub OnStatus-map :
    {R S : AgentRequest → AgentRequest → Trace → Type 0}
    → ((b n : AgentRequest) (t : Trace) → R b n t → S b n t)
    → (c : Call) (t : Trace) → OnStatus R c t
    → OnStatus S c t
OnStatus-map w (patch_status b n) t h = w b n t h
OnStatus-map w _ t h = tt

-- A rule for the lease patches of a trace.
abbrev pub OnLease : (Lease → Lease → Trace → Type 0) → Call → Trace → Type 0
OnLease R (patch_lease b n) t = R b n t
OnLease R _ t = Unit

-- A status patch follows an edge of the lifecycle diagram.
abbrev pub FollowsDiagram : AgentRequest → AgentRequest → Trace → Type 0
FollowsDiagram b n t = edge b.status.phase n.status.phase ≡ true

-- A new request of an agent that may not execute does not become Pending.
abbrev pub GatesTrust : AgentRequest → AgentRequest → Trace → Type 0
GatesTrust b n t =
    (is_unset b.status.phase ≡ false)
    ⊎ (has_value b.annotations "governance.aip.io/can-execute" "false" ≡ false)
    ⊎ (is_pending n.status.phase ≡ false)

module _ (env : Env) where
  -- A patch to Approved comes after the request was given the OpsLock.
  abbrev pub LocksFirst : AgentRequest → AgentRequest → Trace → Type 0
  LocksFirst b n t = (is_approved n.status.phase ≡ false) ⊎ Holds env b t

  -- A patch to Approved comes with an approval, an evaluation or an Allow.
  abbrev pub AsksFirst : AgentRequest → AgentRequest → Trace → Type 0
  AsksFirst b n t = (is_approved n.status.phase ≡ false) ⊎ Permitted env b t

  -- A lease gets another holder only after it was seen to have run out.
  abbrev pub RespectsLease : Lease → Lease → Trace → Type 0
  RespectsLease b n t = (n.holder_identity ≡ b.holder_identity) ⊎ RanOut env b t

  status_rule :
      {R : AgentRequest → AgentRequest → Trace → Type 0}
      → ((b n : AgentRequest) (t : Trace) → PatchSafe env b n t → R b n t)
      → (c : Call) (t : Trace) → IsSafe env c t
      → OnStatus R c t
  status_rule w (patch_status b n) t s = w b n t s
  status_rule w _ t s = tt

  lease_rule : (c : Call) (t : Trace) → IsSafe env c t → OnLease RespectsLease c t
  lease_rule (patch_lease b n) t s = s
  lease_rule _ t s = tt

module _ (env : Env) (answers : Answers env) (queue : List (String × String)) where
  run-IsSafe : Hist (IsSafe env) (run env queue [])
  unfolding run
  run-IsSafe = from queue [] tt
    where
      from :
          (queue : List (String × String)) (t : Trace)
          → Hist (IsSafe env) t
          → Hist (IsSafe env) (run env queue t)
      from [] t h = h
      from ((name, namespace) ∷ queue) t h =
          from queue _ (reconcile-Safe env answers name namespace t h)

  -- Over any series of reconciles, and where the API server answers a status patch with the same
  -- object in the phase that was written: every status patch leads along an edge of the lifecycle
  -- diagram, whatever else the cluster, the clock and the libraries answer.
  pub run-FollowsDiagram : Hist (OnStatus FollowsDiagram) (run env queue [])
  run-FollowsDiagram = Hist-map (status_rule env (λ b n t s. s.legal)) _ run-IsSafe

  -- Over any series of reconciles, and where the API server answers a status patch with the same
  -- object in the phase that was written: a request is patched to Approved only after calls that
  -- gave it the OpsLock of its target: its lease was created, or was read and names it as the
  -- holder, or it was read, had run out and was patched to name it.
  pub run-LocksFirst : Hist (OnStatus (LocksFirst env)) (run env queue [])
  run-LocksFirst = Hist-map (status_rule env (λ b n t s. if_true _ s.locked)) _ run-IsSafe

  -- Over any series of reconciles, and where the API server answers a status patch with the same
  -- object in the phase that was written: a request is patched to Approved only if a human
  -- approved it, if it carries the condition PolicyEvaluated and not RequiresApproval, or after an
  -- evaluation of the request of that name that answered Allow or Log.
  pub run-AsksFirst : Hist (OnStatus (AsksFirst env)) (run env queue [])
  run-AsksFirst = Hist-map (status_rule env (λ b n t s. if_true _ s.permitted)) _ run-IsSafe

  -- Over any series of reconciles, and where the API server answers a status patch with the same
  -- object in the phase that was written: a request without a phase whose annotation can-execute
  -- is "false" is never patched to Pending.
  pub run-GatesTrust : Hist (OnStatus GatesTrust) (run env queue [])
  run-GatesTrust =
      Hist-map (status_rule env (λ b n t s. if_true _ (λ u. if_true _ (s.gated u)))) _ run-IsSafe

  -- Over any series of reconciles, and where the API server answers a status patch with the same
  -- object in the phase that was written: a lease patch keeps the holder, or a reading of the
  -- clock had shown that the lease had run out.
  pub run-RespectsLease : Hist (OnLease (RespectsLease env)) (run env queue [])
  run-RespectsLease = Hist-map (lease_rule env) _ run-IsSafe
