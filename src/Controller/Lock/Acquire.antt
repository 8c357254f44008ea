-- ===== src/Controller/Lock/Acquire.antt =====
-- The OpsLock: an acquisition leaves the evidence that the lock is held, and an unexpired lease of
-- another holder is never written.
use aip_k8s.Prelude.{ℕ, ◌≡◌, refl, Bool, true, false, not, inr, some, ◌∷◌, if◌then◌else◌}
use aip_k8s.Api.Request.{AgentRequest}
use aip_k8s.Controller.Types.{
  Outcome, ok, err, Lease, Trace, is_already_exists, cached, read_clock, get_lease, create_lease,
}
use aip_k8s.Controller.Env.{Env}
use aip_k8s.Controller.Monad.{pure}
use aip_k8s.Effects.Logic.{
  Keeps, Runs, Runs-pure, Runs-raise, Runs-bind, Runs-keep, Runs-if, Runs-option, Runs-pre,
  Runs-invoke, Runs-attempt_invoke,
}
use aip_k8s.Controller.Safety.{IsSafe, Got, RanOut, Holds}
use aip_k8s.Controller.Safety
use aip_k8s.Controller.Quiet.{Grows, quiet_calls, now-Quiet}
use aip_k8s.Controller.Lock.{
  Acquisition, acquired, contended, is_held_by, is_expired, holder_identity, lease_name, new_lease,
  take_over, lease_expired, lease_decided, existing_lease, lease_created, acquire_lease,
  lease_deleted, release_found, release_lock,
}

module _ (env : Env) (req : AgentRequest) {Ev : Trace → Type 0} (grow : Grows Ev) where
  lease_deleted-Quiet : (r : Outcome (Unit {0})) → Keeps (IsSafe env) Ev (lease_deleted env r)
  unfolding lease_deleted
  lease_deleted-Quiet (ok _) = search quiet_calls
  lease_deleted-Quiet (err e) = search quiet_calls

  release_found-Quiet : (r : Outcome Lease) → Keeps (IsSafe env) Ev (release_found env req r)
  unfolding release_found
  release_found-Quiet (ok l) = search (quiet_calls, lease_deleted-Quiet)
  release_found-Quiet (err e) = search quiet_calls

  pub release_lock-Quiet : Keeps (IsSafe env) Ev (release_lock env req)
  unfolding release_lock
  release_lock-Quiet = search (quiet_calls, release_found-Quiet)

  -- What is known of an acquisition.
  abbrev pub Acquired : Acquisition → Trace → Type 0
  Acquired acquired t = Holds env req t × Ev t
  Acquired (contended l) t = Ev t

  -- What is known of a lease that was read.
  record Read (l : Lease) (t : Trace) : Type 0 where
    was_got : Got env (lease_name env req) l t
    if_own : is_held_by (holder_identity req) l ≡ true → Holds env req t
    ev : Ev t

  Read-grow : (l : Lease) → Grows (Read l)
  Read-grow l c t r = record {
    was_got = Safety.Got.later r.was_got;
    if_own = λ h. Safety.Holds.later (r.if_own h);
    ev = grow c t r.ev;
  }

  abbrev Expiry : Lease → Bool → Trace → Type 0
  Expiry l b t = (b ≡ true → RanOut env l t) × Read l t

  lease_expired-Runs : (l : Lease) → Runs (IsSafe env) (Read l) (lease_expired env l) (Expiry l)
  unfolding lease_expired
  lease_expired-Runs l =
      Runs-option l.renew_time (λ _. Runs-pure false (λ t r. ((λ h. cc), r)))
        (λ _ _.
          Runs-option l.duration_seconds (λ _. Runs-pure false (λ t r. ((λ h. cc), r)))
            (λ _ _.
              Runs-bind {Q = λ time. Expiry l (is_expired time l)}
                (Runs-invoke read_clock (λ t. ok (env.clock t)) (λ _ _. tt)
                  (λ t r time q. (clock_read l t time q, Read-grow l read_clock t r)))
                (λ time. Runs-pure (is_expired time l) (λ t e. e))))
    where
      clock_read :
          (l : Lease) (t : Trace) (time : ℕ)
          → ok (env.clock t) ≡ ok time
          → is_expired time l ≡ true
          → RanOut env l (read_clock ∷ t)
      clock_read l t time q h = let e : env.clock t ≡ time = cc in Safety.RanOut.seen (rw e h)

  take_over-Runs :
      (l : Lease)
      → Runs (IsSafe env) (λ t. RanOut env l t × Read l t) (take_over env req l) Acquired
  unfolding take_over
  take_over-Runs l = Runs-bind (Runs-keep (now-Quiet env later)) (λ a.
      Runs-bind (Runs-keep (now-Quiet env later)) (λ b.
        Runs-bind
          (Runs-invoke _ _ (λ t e. inr e.0)
            (λ t e _ q. (Safety.Holds.taken_over e.1.was_got e.0 refl q, grow _ t e.1.ev)))
          (λ _. Runs-pure acquired (λ t e. e))))
    where
      later : Grows (λ t. RanOut env l t × Read l t)
      later c t e = (Safety.RanOut.later e.0, Read-grow l c t e.1)

  lease_decided-Runs :
      (l : Lease) (b : Bool) → Runs (IsSafe env) (Expiry l b) (lease_decided env req l b) Acquired
  unfolding lease_decided
  lease_decided-Runs l b =
      Runs-if (is_held_by (holder_identity req) l)
        (λ h. Runs-pure acquired (λ t e. (e.1.if_own h, e.1.ev))) (λ _. if_expired b)
    where
      if_expired :
          (b : Bool)
          → Runs
              (IsSafe env)
              (Expiry l b)
              (if b then take_over env req l else pure (contended l))
              Acquired
      if_expired true = Runs-pre (take_over-Runs l) (λ t e. (e.0 refl, e.1))
      if_expired false = Runs-pure (contended l) (λ t e. e.1.ev)

  existing_lease-Runs : (l : Lease) → Runs (IsSafe env) (Read l) (existing_lease env req l) Acquired
  unfolding existing_lease
  existing_lease-Runs l = Runs-bind (lease_expired-Runs l) (λ b. lease_decided-Runs l b)

  -- The answer to the creation of the request's own lease.
  abbrev Created : Outcome (Unit {0}) → Trace → Type 0
  Created (ok _) t = Holds env req t × Ev t
  Created (err e) t = Ev t

  Created-answer :
      (l : Lease) (t : Trace) (r : Outcome (Unit {0}))
      → l.name ≡ lease_name env req
      → l.holder_identity ≡ some (holder_identity req)
      → env.on_create_lease t l ≡ r
      → Ev t
      → Created r (create_lease l ∷ t)
  Created-answer l t (ok _) n h q e = (Safety.Holds.created n h q, grow _ t e)
  Created-answer l t (err x) n h q e = grow _ t e

  Read-answer :
      (l : Lease) (t : Trace)
      → Ev t
      → env.on_get_lease t cached (lease_name env req) req.namespace ≡ ok l
      → Read l (get_lease cached (lease_name env req) req.namespace ∷ t)
  Read-answer l t e q = record {
    was_got = Safety.Got.got q;
    if_own = λ h. Safety.Holds.owned refl q h;
    ev = grow _ t e;
  }

  lease_created-Runs :
      (r : Outcome (Unit {0})) → Runs (IsSafe env) (Created r) (lease_created env req r) Acquired
  unfolding lease_created
  lease_created-Runs (ok _) = Runs-pure acquired (λ t e. e)
  lease_created-Runs (err x) =
      Runs-if (not (is_already_exists x)) (λ _. Runs-raise x)
        (λ _.
          Runs-bind {Q = Read} (Runs-invoke _ _ (λ _ _. tt) (λ t e l q. Read-answer l t e q))
            (λ l. existing_lease-Runs l))

  pub acquire_lease-Runs : Runs (IsSafe env) Ev (acquire_lease env req) Acquired
  unfolding acquire_lease new_lease
  acquire_lease-Runs = Runs-bind (Runs-keep (now-Quiet env grow)) (λ a.
      Runs-bind (Runs-keep (now-Quiet env grow)) (λ b.
        Runs-bind
          (Runs-attempt_invoke {Q = Created} _ _ (λ _ _. tt)
            (λ t e. Created-answer (new_lease env req a b) t _ refl refl refl e))
          (λ r. lease_created-Runs r)))
