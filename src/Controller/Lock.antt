-- ===== src/Controller/Lock.antt =====
-- The OpsLock: `generateLeaseName`, `releaseLock` and the lease part of `handleLockAcquisition`.
pub mod Acquire
pub mod Expiry
pub mod Release
use Prim.Native.String.{slice, len}
use aip_k8s.Prelude.{
  on_option, ℕ, suc, ◌+◌, ◌*◌, ◌/◌, String, Bool, false, none, some, [], ◌∷◌, not, ◌==◌, str_eq,
  str_append, ltb, if◌then◌else◌,
}
use aip_k8s.Api.Request.{AgentRequest}
use aip_k8s.Controller.Types.{
  Outcome, ok, err, ℤ, pos, negsuc, to_int32, Lease, is_not_found, is_already_exists, cached,
  lock_dec,
}
use aip_k8s.Controller.Env.{Env}
use aip_k8s.Controller.Monad.{
  M, pure, raise, attempt, ◌>>=◌, ◌>>◌, metric, now, get_lease_m, create_lease_m, patch_lease_m,
  delete_lease_m,
}

abbrev pub second : ℕ
second = 1_000_000_000

-- defaultLockWaitTimeout is 60 s, the other defaults are 5 minutes.
pub lock_wait_timeout : Env → ℕ
lock_wait_timeout env = if ltb 0 env.lock_wait_duration then env.lock_wait_duration else 60 * second

pub ops_lock_duration_or_default : Env → ℕ
ops_lock_duration_or_default env =
    if env.ops_lock_duration == 0 then 300 * second else env.ops_lock_duration

pub approved_timeout_or_default : Env → ℕ
approved_timeout_or_default env =
    if env.approved_timeout == 0 then 300 * second else env.approved_timeout

-- "<identity>/<name>"
abbrev pub holder_identity : AgentRequest → String
holder_identity req = str_append req.spec.agent_identity (str_append "/" req.name)

pub generate_lease_name : Env → String → String
generate_lease_name env uri =
    let name = str_append "aip-lock-" (env.sha256_hex uri) in
    if ltb 253 (len name) then slice name 0 253 else name

abbrev pub lease_name : Env → AgentRequest → String
lease_name env req = generate_lease_name env req.spec.target_uri

-- `now.After(renew.Add(duration))`, over the integers.
abbrev after_seconds : ℕ → ℕ → ℤ → Bool
after_seconds time renew (pos s) = ltb (renew + s * second) time
after_seconds time renew (negsuc s) = ltb renew (time + suc s * second)

-- A lease with no renew time or no duration does not expire.
unfoldable pub is_expired : ℕ → Lease → Bool
is_expired time l = elim l.renew_time [
  | none ↦ false
  | some renew ↦ elim l.duration_seconds [ none ↦ false | some s ↦ after_seconds time renew s ]
]

unfoldable pub is_held_by : String → Lease → Bool
is_held_by holder l = elim l.holder_identity [ none ↦ false | some h ↦ str_eq h holder ]

-- `HolderIdentity != nil && *HolderIdentity != holder`
unfoldable pub is_held_by_other : String → Lease → Bool
is_held_by_other holder l = elim l.holder_identity [ none ↦ false | some h ↦ not (str_eq h holder) ]

-- How an attempt to acquire the lock ends: held, or held by another whose lease is running.
pub data Acquisition : Type 0 where
  acquired : Acquisition
  contended : Lease → Acquisition

module _ (env : Env) where
  new_lease : AgentRequest → ℕ → ℕ → Lease
  new_lease req acquire renew = record {
    name = lease_name env req;
    namespace = req.namespace;
    labels = ("governance.aip.io/managed-by", "aip-controller") ∷ [];
    holder_identity = some (holder_identity req);
    duration_seconds = some (to_int32 (ops_lock_duration_or_default env / second));
    acquire_time = some acquire;
    renew_time = some renew;
  }

  -- Takes over the expired lease of a previous holder.
  take_over : AgentRequest → Lease → M Acquisition
  take_over req l = do
    acquire ← now env
    renew ← now env
    patch_lease_m env l (record l {
      holder_identity = some (holder_identity req);
      acquire_time = some acquire;
      renew_time = some renew;
      duration_seconds = some (to_int32 (ops_lock_duration_or_default env / second));
    })
    pure acquired

  -- The clock is read where the lease has a renew time and a duration.
  lease_expired : Lease → M Bool
  lease_expired l = on_option l.renew_time (pure false) λ _.
      on_option l.duration_seconds (pure false) λ _. do time ← now env; pure (is_expired time l)

  lease_decided : AgentRequest → Lease → Bool → M Acquisition
  lease_decided req l expired =
      if is_held_by (holder_identity req) l
      then pure acquired
      else if expired
      then take_over req l
      else pure (contended l)

  existing_lease : AgentRequest → Lease → M Acquisition
  existing_lease req l = do expired ← lease_expired l; lease_decided req l expired

  lease_created : AgentRequest → Outcome (Unit {0}) → M Acquisition
  lease_created req (ok _) = pure acquired
  lease_created req (err e) =
      if not (is_already_exists e)
      then raise e
      else do l ← get_lease_m env cached (lease_name env req) req.namespace; existing_lease req l

  pub acquire_lease : AgentRequest → M Acquisition
  acquire_lease req = do
    acquire ← now env
    renew ← now env
    created ← attempt (create_lease_m env (new_lease req acquire renew))
    lease_created req created

  lease_deleted : Outcome (Unit {0}) → M (Unit {0})
  lease_deleted (ok _) = metric lock_dec
  lease_deleted (err e) = if is_not_found e then metric lock_dec else raise e

  release_found : AgentRequest → Outcome Lease → M (Unit {0})
  release_found req (ok l) =
      if is_held_by_other (holder_identity req) l
      then pure tt
      else do deleted ← attempt (delete_lease_m env l); lease_deleted deleted
  release_found req (err e) = if is_not_found e then pure tt else raise e

  pub release_lock : AgentRequest → M (Unit {0})
  release_lock req = do
    l ← attempt (get_lease_m env cached (lease_name env req) req.namespace)
    release_found req l
