-- ===== src/Gateway/Create/Identity.antt =====
-- The checks of `handleCreateAgentRequest` on the caller, and with them the whole handler.
use aip_k8s.Prelude.{
  String, Bool, true, false, not, ◌&&◌, ◌||◌, Option, none, some, ◌≡◌, refl, ◌⊎◌, inl, inr, str_eq,
  is_some, on_option, if◌then◌else◌, Bool-cases,
}
use aip_k8s.Api.Request.{AgentRequest, Message}
use aip_k8s.Effects.{ok, invoke}
use aip_k8s.Effects.Logic.{
  Runs, Runs-pure, Runs-given, Runs-invoke, Runs-bind, Runs-if, Runs-option,
}
use aip_k8s.Gateway.Roles.{Role, require_role}
use aip_k8s.Gateway.Registrations.{Registration, RegistrationCache, get, get_for_subject}
use aip_k8s.Gateway.Match.Cached.{IsCacheOf}
use aip_k8s.Gateway.Server.{Server, Caller, caller_of, Trace, HttpRequest, read_registrations}
use aip_k8s.Gateway.Review.{fail}
use aip_k8s.Gateway.Admission.{MayCreate, Finds, Misses, IsIdentity}
use aip_k8s.Gateway.Safety.{Allowed, Safe, fail-Safe}
use aip_k8s.Gateway.Create.Body.{CreateBody, labels_of, request_of}
use aip_k8s.Gateway.Create.{
  unregistered, registration, identity_for, check_known, check_registration, mismatch, for_agent,
  with_registration, handle_create,
}
use aip_k8s.Gateway.Create.Filing.{annotated}
use aip_k8s.Gateway.Create.Admitted.{IsFresh, admission-Safe}
use aip_k8s.Gateway.Credentials.Safe.{role_given}

module _ {F : Type 0} (s : Server F) (asks : Caller → Type 0) where
  module _ (r : HttpRequest CreateBody) (body : CreateBody) where
    -- What the search for the registration has found.
    abbrev Looked : Option Registration → Type 0
    Looked (some reg) = Finds s (caller_of r) reg
    Looked none =
        (s.registrations ≡ none)
        ⊎ ((cache : Trace → RegistrationCache) × (s.registrations ≡ some cache)
            × (t : Trace) × (u : Trace) × (((s.auth_required ≡ true)
                  × (get (cache t) r.sub ≡ none)
                  × (get_for_subject (cache u) "" r.sub ≡ none))
                ⊎ ((s.auth_required ≡ false)
                    × ((str_eq body.agent_identity "" ≡ true)
                        ⊎ (get (cache t) body.agent_identity ≡ none)))))

  module _ (r : HttpRequest CreateBody) (body : CreateBody)
      (may : MayCreate s asks (caller_of r)) where
    abbrev FromBody : AgentRequest → Type 0
    FromBody = IsFresh s asks (caller_of r) body

    built : (agent : String) → IsIdentity s (caller_of r) agent → FromBody (request_of s agent body)
    unfolding request_of
    built agent identity = record {
      target = refl;
      action = refl;
      observe = refl;
      new = refl;
      identity = identity;
    }

    warned :
        (b : Bool) (req : AgentRequest)
        → FromBody req
        → FromBody (if b then annotated "governance.aip.io/unregistered" "true" req else req)
    unfolding annotated
    warned true req f = record {
      target = f.target;
      action = f.action;
      observe = f.observe;
      new = f.new;
      identity = f.identity;
    }
    warned false req f = f

    -- The agent that the request is for, without a registration.
    own_agent :
        (agent : String)
        → identity_for s r body none ≡ some agent
        → (s.auth_required ≡ false) ⊎ (agent ≡ r.sub)
    unfolding identity_for
    own_agent agent e = elim (Bool-cases s.auth_required) [
      | inl on ↦ inr (let q : some r.sub ≡ some agent = rw on at e in cc)
      | inr off ↦ inl off
    ]

    registered_agent :
        (reg : Registration) (agent : String)
        → identity_for s r body (some reg) ≡ some agent
        → agent ≡ reg.agent_identity
    unfolding identity_for
    registered_agent reg agent e = let q : some reg.agent_identity ≡ some agent = e in cc

    -- A refusal, or a fresh request.
    abbrev Checked : Option Message × AgentRequest → Type 0
    Checked x = x.0 ≡ none → FromBody x.1

    Checked-if :
        (b : Bool) {x y : Option Message × AgentRequest}
        → (b ≡ true → Checked x)
        → (b ≡ false → Checked y)
        → Checked (if b then x else y)
    Checked-if true h k = h refl
    Checked-if false h k = k refl

    -- The agent of the body, without authentication.
    body_agent :
        (agent : String)
        → s.auth_required ≡ false
        → identity_for s r body none ≡ some agent
        → (agent ≡ body.agent_identity) × (str_eq body.agent_identity "" ≡ false)
    unfolding identity_for
    body_agent agent off e = elim (Bool-cases (str_eq body.agent_identity "")) [
      | inl blank ↦ absurd (cc (rw blank at (rw off at e)))
      | inr given ↦
          (let q : some body.agent_identity ≡ some agent = rw given at (rw off at e) in cc, given)
    ]

    missed :
        (agent : String)
        → identity_for s r body none ≡ some agent
        → Looked r body none
        → (is_some s.registrations ≡ true → str_eq s.unregistered_agent_policy "strict" ≡ false)
        → Misses s (caller_of r) agent
    missed agent named (inl off) lenient = inl off
    missed agent named (inr (cache, kept, t, u, inl on)) lenient =
        inr (cache, kept, lenient (rw kept refl), t, u, inl on)
    missed agent named (inr (cache, kept, t, u, inr (off, inl blank))) lenient =
        absurd (cc (rw blank at (body_agent agent off named).1))
    missed agent named (inr (cache, kept, t, u, inr (off, inr unknown))) lenient = inr (
      cache,
      kept,
      lenient (rw kept refl),
      t,
      u,
      inr (off, rw (body_agent agent off named).0 unknown),
    )

    known-Checked :
        (reg : Option Registration) (agent : String)
        → identity_for s r body reg ≡ some agent
        → Looked r body reg
        → Checked (check_known s r reg (request_of s agent body))
    unfolding check_known unregistered
    known-Checked none agent named looked kept =
        warned (str_eq s.unregistered_agent_policy "warn") _ (
          built agent (
            inr (
              missed agent named looked
                  (λ used. lenient (str_eq s.unregistered_agent_policy "strict") _ kept),
              own_agent agent named,
            )))
      where
        lenient : (b : Bool) (m : Message) → (if b then some m else none) ≡ none → b ≡ false
        lenient true m h = absurd (cc h)
        lenient false m h = refl
    known-Checked (some reg) agent named looked kept =
        built agent (inl (reg, looked, registered_agent reg agent named, passes _ kept))
      where
        passes : (o : Option Message) → on_option o none (λ m. some (mismatch m)) ≡ none → o ≡ none
        passes none h = refl
        passes (some m) h = absurd (cc h)

    unchecked-IsIdentity :
        (reg : Option Registration) (agent : String)
        → identity_for s r body reg ≡ some agent
        → Looked r body reg
        → is_some s.registrations ≡ false
        → IsIdentity s (caller_of r) agent
    unchecked-IsIdentity none agent named looked off =
        inr (missed agent named looked (λ used. cc (rw used at off)), own_agent agent named)
    unchecked-IsIdentity (some reg) agent named looked off = absurd (cc (rw looked.1 at off))

    not-true : (b : Bool) → not b ≡ true → b ≡ false
    not-true true h = absurd (cc h)
    not-true false h = refl

    registration-Checked :
        (reg : Option Registration) (agent : String)
        → identity_for s r body reg ≡ some agent
        → Looked r body reg
        → Checked (check_registration s r reg (request_of s agent body))
    unfolding check_registration
    registration-Checked reg agent named looked =
        Checked-if (not (is_some s.registrations))
          (λ off kept. built agent (unchecked-IsIdentity reg agent named looked (not-true _ off)))
          (λ used. known-Checked reg agent named looked)

    module _ (caches : (t : Trace) → IsCacheOf s.compile (s.glob_cache t)) where
      for_agent-Safe :
          (reg : Option Registration) (agent : String)
          → identity_for s r body reg ≡ some agent
          → Looked r body reg
          → Safe s asks (for_agent s r body reg agent)
      unfolding for_agent
      for_agent-Safe reg agent named looked =
          Runs-option (check_registration s r reg (request_of s agent body)).0
            (λ passed.
              admission-Safe s asks (caller_of r) may r.accepts_sse body (labels_of s agent body)
                caches _ (registration-Checked reg agent named looked passed))
            (λ m refused. fail-Safe s asks _ _)

      identified-Safe :
          (reg : Option Registration)
          → Looked r body reg
          → Safe s asks (
              on_option
                (identity_for s r body reg)
                (fail 400 "agentIdentity is required when running without authentication")
                (for_agent s r body reg))
      identified-Safe reg looked =
          Runs-option (identity_for s r body reg) (λ e. fail-Safe s asks _ _)
            (λ agent named. for_agent-Safe reg agent named looked)

  module _ (caches : (t : Trace) → IsCacheOf s.compile (s.glob_cache t))
      (r : HttpRequest CreateBody) (asked : asks (caller_of r)) where
    with_registration-Safe :
        (body : CreateBody)
        → (s.auth_required && str_eq r.sub "") ≡ false
        → (reg : Option Registration) → Looked r body reg
        → Safe s asks (with_registration s r body reg)
    unfolding with_registration
    with_registration-Safe body known reg looked =
        Runs-option
          (if s.auth_required then require_role s.roles Role.agent r.sub r.groups else none)
          (λ passed. identified-Safe r body (may_ask passed) caches reg looked)
          (λ m e. fail-Safe s asks _ _)
      where
        may_ask :
            (if s.auth_required then require_role s.roles Role.agent r.sub r.groups else none)
              ≡ none
            → MayCreate s asks (caller_of r)
        may_ask passed = (
          asked,
          elim (Bool-cases s.auth_required) [
            | inr off ↦ inl off
            | inl on ↦ inr (record {
              asked = asked;
              role_given = role_given s Role.agent r.sub r.groups (rw on at passed);
              known = inr (rw on at known);
            })
          ],
        )

    read-Runs :
        (f : Trace → RegistrationCache)
        → Runs
            (Allowed s asks)
            (λ _. Unit)
            (invoke read_registrations (λ t. ok (f t)))
            (λ c u. (t : Trace) × (f t ≡ c))
    read-Runs f =
        Runs-invoke read_registrations _ (λ t e. tt) (λ t e c p. (t, let q : f t ≡ c = cc in q))

    by_subject :
        (body : CreateBody) (cache : Trace → RegistrationCache) (t u : Trace)
        → s.registrations ≡ some cache
        → s.auth_required ≡ true
        → get (cache t) r.sub ≡ none
        → (found : Option Registration) → get_for_subject (cache u) "" r.sub ≡ found
        → Looked r body found
    by_subject body cache t u kept on missing none e = inr (cache, kept, t, u, inl (on, missing, e))
    by_subject body cache t u kept on missing (some reg) e = (cache, kept, u, inl (on, inr e))

    by_body :
        (body : CreateBody) (cache : Trace → RegistrationCache) (t : Trace)
        → s.registrations ≡ some cache
        → s.auth_required ≡ false
        → (found : Option Registration) → get (cache t) body.agent_identity ≡ found
        → Looked r body found
    by_body body cache t kept off none e = inr (cache, kept, t, t, inr (off, inr e))
    by_body body cache t kept off (some reg) e = (cache, kept, t, inr (off, body.agent_identity, e))

    registration-Looked :
        (body : CreateBody)
        → (s.auth_required && str_eq r.sub "") ≡ false
        → Runs (Allowed s asks) (λ _. Unit) (registration s r body) (λ reg u. Looked r body reg)
    unfolding registration
    registration-Looked body known =
        Runs-option s.registrations (λ absent. Runs-pure none (λ t e. inl absent))
          (λ cache kept.
            Runs-if s.auth_required
              (λ on.
                Runs-if (str_eq r.sub "") (λ blank. absurd (cc (rw (on, blank) at known)))
                  (λ named. Runs-bind (read-Runs cache) (λ c. Runs-given (λ v seen.
                    Runs-option (get c r.sub)
                      (λ missing. Runs-bind (read-Runs cache) (λ later. Runs-given (λ w again.
                        Runs-pure _ (λ _ _.
                          by_subject body cache seen.0 again.0 kept on (rw seen.1 missing) _
                            (rw again.1 refl)))))
                      (λ reg found.
                        Runs-pure (some reg)
                          (λ _ _. (cache, kept, seen.0, inl (on, inl (rw seen.1 found)))))))))
              (λ off.
                Runs-if (str_eq body.agent_identity "")
                  (λ blank. Runs-pure none (λ t e. inr (cache, kept, t, t, inr (off, inl blank))))
                  (λ given. Runs-bind (read-Runs cache) (λ c. Runs-given (λ v seen.
                    Runs-pure _ (λ _ _. by_body body cache seen.0 kept off _ (rw seen.1 refl)))))))

    pub handle_create-Safe : Safe s asks (handle_create s r)
    unfolding handle_create
    handle_create-Safe =
        Runs-if (s.auth_required && str_eq r.sub "") (λ e. fail-Safe s asks _ _)
          (λ known.
            Runs-option r.body (λ e. fail-Safe s asks _ _)
              (λ body e.
                Runs-if (str_eq body.action "" || str_eq body.target_uri "")
                  (λ e. fail-Safe s asks _ _)
                  (λ e. Runs-bind (registration-Looked body known) (λ reg.
                    Runs-given (λ t looked. with_registration-Safe body known reg looked)))))
