-- ===== src/Controller/Reconcile/Terminal.antt =====
-- A request that has ended is left alone.
use aip_k8s.Prelude.{String, ◌≡◌, refl, ◌∷◌, false}
use aip_k8s.Api.Request.{
  Phase, unset, pending, approved, denied, executing, completed, failed, awaiting_verdict, expired,
  observed, unknown, AgentRequest,
}
use aip_k8s.Controller.Types.{ok, done, get_request, Trace}
use aip_k8s.Controller.Env.{Env, reader_of}
use aip_k8s.Controller.Monad.{pure, ◌>>=◌}
use aip_k8s.Controller.Safety.{is_live}
use aip_k8s.Controller.Admission.{is_completed}
use aip_k8s.Controller.Reconcile.{on_phase, fetched, reconcile}

module _ (env : Env) where
  on_phase-ended :
      (p : Phase) (req : AgentRequest)
      → is_live p ≡ false
      → is_completed p ≡ false
      → on_phase env p req ≡ pure done
  unfolding on_phase
  on_phase-ended denied req l c = refl
  on_phase-ended failed req l c = refl
  on_phase-ended expired req l c = refl
  on_phase-ended observed req l c = refl
  on_phase-ended completed req l c = cc
  on_phase-ended unset req l c = cc
  on_phase-ended pending req l c = cc
  on_phase-ended approved req l c = cc
  on_phase-ended executing req l c = cc
  on_phase-ended awaiting_verdict req l c = cc
  on_phase-ended (unknown s) req l c = cc

  -- A request that is read as Denied, Failed, Expired or Observed is only read: the reconcile makes
  -- no other call and asks for no requeue.
  pub reconcile-ended :
      (name namespace : String) (t : Trace) (req : AgentRequest)
      → env.on_get_request t (reader_of env) name namespace ≡ ok req
      → is_live req.status.phase ≡ false
      → is_completed req.status.phase ≡ false
      → reconcile env name namespace t ≡ (ok done, get_request (reader_of env) name namespace ∷ t)
  unfolding reconcile fetched ◌>>=◌
  reconcile-ended name namespace t req q l c = rw (q, on_phase-ended req.status.phase req l c) refl
