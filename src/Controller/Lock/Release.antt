-- ===== src/Controller/Lock/Release.antt =====
-- What `releaseLock` deletes.
use aip_k8s.Prelude.{◌≡◌, refl, false, [], ◌∷◌}
use aip_k8s.Api.Request.{AgentRequest}
use aip_k8s.Controller.Types.{
  Outcome, ok, err, Lease, Call, Trace, is_not_found, cached, get_lease, delete_lease,
}
use aip_k8s.Controller.Env.{Env}
use aip_k8s.Effects.Logic.{
  Hist, Keeps, Keeps-raise, Keeps-invoke, Keeps-if, Runs, Runs-bind, Runs-attempt_invoke, Runs-if,
  Runs-pure, Runs-raise, Runs-keep,
}
use aip_k8s.Controller.Safety.{Got}
use aip_k8s.Controller.Safety
use aip_k8s.Controller.Lock.{
  is_held_by_other, holder_identity, lease_name, lease_deleted, release_found, release_lock,
}

module _ (env : Env) (req : AgentRequest) where
  -- A deleted lease was read under the name of the request's lock, and no other request holds it.
  pub record Own (l : Lease) (t : Trace) : Type 0 where
    was_read : Got env (lease_name env req) l t
    not_foreign : is_held_by_other (holder_identity req) l ≡ false

  abbrev pub DeletesOwn : Call → Trace → Type 0
  DeletesOwn (delete_lease l) t = Own l t
  DeletesOwn _ t = Unit

  abbrev Answered : Outcome Lease → Trace → Type 0
  Answered (ok l) t = Got env (lease_name env req) l t
  Answered (err e) t = Unit

  answered :
      (r : Outcome Lease) (t : Trace)
      → env.on_get_lease t cached (lease_name env req) req.namespace ≡ r
      → Answered r (get_lease cached (lease_name env req) req.namespace ∷ t)
  answered (ok l) t q = Safety.Got.got q
  answered (err e) t q = tt

  lease_deleted-Keeps :
      (r : Outcome (Unit {0})) → Keeps DeletesOwn (λ _. Unit) (lease_deleted env r)
  unfolding lease_deleted
  lease_deleted-Keeps (ok _) = Keeps-invoke _ _ (λ _ _. tt) (λ _ _. tt)
  lease_deleted-Keeps (err e) =
      Keeps-if (is_not_found e) (Keeps-invoke _ _ (λ _ _. tt) (λ _ _. tt)) (Keeps-raise e)

  release_found-Runs :
      (r : Outcome Lease) → Runs DeletesOwn (Answered r) (release_found env req r) (λ _ _. Unit)
  unfolding release_found
  release_found-Runs (ok l) =
      Runs-if (is_held_by_other (holder_identity req) l) (λ _. Runs-pure tt (λ _ _. tt))
        (λ h.
          Runs-bind {Q = λ _ _. Unit}
            (Runs-attempt_invoke _ _ (λ t g. record { was_read = g; not_foreign = h }) (λ _ _. tt))
            (λ r. Runs-keep (lease_deleted-Keeps r)))
  release_found-Runs (err e) =
      Runs-if (is_not_found e) (λ _. Runs-pure tt (λ _ _. tt)) (λ _. Runs-raise e)

  release_lock-Runs : Runs DeletesOwn (λ _. Unit) (release_lock env req) (λ _ _. Unit)
  unfolding release_lock
  release_lock-Runs =
      Runs-bind {Q = Answered} (Runs-attempt_invoke _ _ (λ _ _. tt) (λ t _. answered _ t refl))
        (λ r. release_found-Runs r)

  -- `releaseLock` deletes at most a lease that it read under the name of the request's lock and that
  -- no other request holds.
  pub release_lock-DeletesOwn : Hist DeletesOwn (release_lock env req []).1
  release_lock-DeletesOwn = (release_lock-Runs.at [] tt tt).0
