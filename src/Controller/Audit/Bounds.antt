-- ===== src/Controller/Audit/Bounds.antt =====
-- The number of attempts of `createAuditWithRetry`.
use aip_k8s.Prelude.{ℕ, zero, suc, ◌≤◌, ◌+◌, ◌∷◌, length, arith, if◌then◌else◌, Bool, true, false}
use aip_k8s.Controller.Types.{
  Err, Outcome, ok, err, AuditRecord, Trace, create_audit, is_already_exists,
}
use aip_k8s.Controller.Env.{Env}
use aip_k8s.Controller.Monad.{M, pure, ◌>>=◌}
use aip_k8s.Controller.Audit.{retry_audit, create_audit_with_retry}

module _ (env : Env) (a : AuditRecord) where
  retry_audit-le : (n : ℕ) (e : Err) (t : Trace) → length (retry_audit env n e a t).1 ≤ n + length t
  unfolding retry_audit ◌>>=◌
  retry_audit-le zero e t = omega arith
  retry_audit-le (suc n) e t =
      answered (λ x. retry_audit-le n x (create_audit a ∷ t)) (env.on_create_audit t a)
    where
      answered :
          ((x : Err)
            → length (retry_audit env n x a (create_audit a ∷ t)).1
              ≤ n + length (create_audit a ∷ t))
          → (r : Outcome (Unit {0}))
          → length
              ((elim r as (λ _. M (Unit {0})) [
                | ok _ ↦ pure tt
                | err x ↦ if is_already_exists x then pure tt else retry_audit env n x a
              ])
                (create_audit a ∷ t)).1
            ≤ suc n + length t
      answered ih (ok _) = omega arith
      answered ih (err x) = tolerated (is_already_exists x)
        where
          tolerated :
              (b : Bool)
              → length ((if b then pure tt else retry_audit env n x a) (create_audit a ∷ t)).1
                ≤ suc n + length t
          tolerated true = omega arith
          tolerated false = let tried = ih x in omega arith

  -- At most three attempts are made, whatever the API server answers.
  pub create_audit_with_retry-le :
      (t : Trace) → length (create_audit_with_retry env a t).1 ≤ 3 + length t
  unfolding create_audit_with_retry
  create_audit_with_retry-le t = retry_audit-le 3 _ t
