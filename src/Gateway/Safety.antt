-- ===== src/Gateway/Safety.antt =====
-- What the gateway may write, call by call, and the assumption on the retries.
use aip_k8s.Prelude.{
  ℕ, String, true, false, none, ◌∷◌, ◌≡◌, ◌&&◌, ◌⊎◌, inl, inr, str_eq, refl, Bool-cases,
}
use aip_k8s.Api.Request.{AgentRequest, Decision, Message}
use aip_k8s.Effects.{Outcome, ok, err, pure, attempt}
use aip_k8s.Effects.Logic.{Runs, Runs-invoke, Runs-attempt_invoke, Runs-pure, Runs-if, Runs-option}
use aip_k8s.Gateway.Roles.{Role, has_role, require_role}
use aip_k8s.Gateway.Server.{
  Server, M, Call, Trace, Reader, HttpRequest, Response, Caller, caller_of, get_request_m,
  patch_object, patch_status, patch_status_locked, mint_token, get_request, create_request,
  delete_request, fetch_credential,
}
pub use aip_k8s.Effects.Retries.{last}
use aip_k8s.Effects.Retries.{Attempts, Attempts-Hist}
pub use aip_k8s.Gateway.Admission.{WasRead, HasRole}
use aip_k8s.Gateway.Admission.{IsAdmission, IsStale, IsMirror, IsIssue}
use aip_k8s.Gateway.Review.{
  VerdictBody, invalid_verdict, is_phase, decided_request, with_role, fail_with,
}

module _ {F : Type 0} (s : Server F) where
  abbrev pub RetriesConflicts : Type 0
  RetriesConflicts =
      (m : M (Unit {0})) (t : Trace)
      → Attempts m t (s.retry_on_conflict m t).0 (s.retry_on_conflict m t).1

  abbrev pub Read : Outcome AgentRequest → Trace → Type 0
  Read (ok req) t = WasRead s req
  Read (err e) t = Unit

  answer-Read :
      (answer : Outcome AgentRequest) (t u : Trace) (r : Reader) (ns n : String)
      → s.on_get_request t r ns n ≡ answer
      → Read answer u
  answer-Read (ok req) t u r ns n e = (t, r, ns, n, e)
  answer-Read (err x) t u r ns n e = tt

module _ {F : Type 0} (s : Server F) (asks : Caller → Type 0) where
  -- A reviewer decides on a request that was read as Pending, and whose agentIdentity is not his
  -- subject.
  pub record IsReview (b : AgentRequest) : Type 0 where
    pub read : WasRead s b
    pub who : Caller
    pub reviewer : HasRole s asks Role.reviewer who
    pub pending : is_phase "Pending" b ≡ true
    pub not_own : str_eq b.spec.agent_identity who.sub ≡ false

  -- The written object of a review.
  pub record IsDecision (b n : AgentRequest) : Type 0 where
    pub decision : Decision
    pub review : IsReview b
    pub reason : String
    pub written : n ≡ decided_request s decision review.who.sub reason b

  -- A token is for a request that a reviewer approves.
  pub record IsMint (identity action uri name : String) : Type 0 where
    pub request : AgentRequest
    pub review : IsReview request
    pub identity_eq : identity ≡ request.spec.agent_identity
    pub action_eq : action ≡ request.spec.action
    pub uri_eq : uri ≡ request.spec.target_uri
    pub name_eq : name ≡ request.name

  -- A reviewer grades a request that was read as AwaitingVerdict and has no verdict.
  pub record IsGrade (b n : AgentRequest) : Type 0 where
    pub read : WasRead s b
    pub who : Caller
    pub reviewer : HasRole s asks Role.reviewer who
    pub awaiting : is_phase "AwaitingVerdict" b ≡ true
    pub ungraded : str_eq b.status.verdict "" ≡ true
    pub body : VerdictBody
    pub valid : invalid_verdict body ≡ none
    pub verdict_eq : n.status.verdict ≡ body.verdict
    pub verdict_by_eq : n.status.verdict_by ≡ who.sub
    pub phase_eq : n.status.phase ≡ b.status.phase
    pub spec_eq : n.spec ≡ b.spec

  -- An agent reports on a request: its phase, its spec and its verdict are kept.
  pub record IsReport (b n : AgentRequest) : Type 0 where
    pub read : WasRead s b
    pub who : Caller
    pub agent : HasRole s asks Role.agent who
    pub phase_eq : n.status.phase ≡ b.status.phase
    pub spec_eq : n.spec ≡ b.spec
    pub verdict_eq : n.status.verdict ≡ b.status.verdict

  abbrev pub Allowed : Call → Trace → Type 0
  Allowed (create_request n) t = IsAdmission s asks n
  Allowed (delete_request b) t = IsStale s b
  Allowed (fetch_credential provider raw) t = IsIssue s asks provider
  Allowed (patch_object b n) t = IsDecision b n
  Allowed (mint_token identity action uri name) t = IsMint identity action uri name
  Allowed (patch_status_locked b n) t = IsGrade b n
  Allowed (patch_status b n) t = IsReport b n ⊎ IsMirror s b n
  Allowed _ t = Unit

  -- The calls of an action are allowed.
  abbrev pub Safe : {A : Type 0} → M A → Type 0
  Safe m = Runs Allowed (λ _. Unit) m (λ _ _. Unit)

  pub get-Read :
      (r : Reader) (ns n : String)
      → Runs Allowed (λ _. Unit) (attempt (get_request_m s r ns n)) (Read s)
  get-Read r ns n =
      Runs-attempt_invoke (get_request r ns n) _ (λ t e. tt)
        (λ t e. answer-Read s _ t (get_request r ns n ∷ t) r ns n refl)

  pub get-WasRead :
      (r : Reader) (ns n : String)
      → Runs Allowed (λ _. Unit) (get_request_m s r ns n) (λ req t. WasRead s req)
  get-WasRead r ns n =
      Runs-invoke (get_request r ns n) _ (λ t e. tt) (λ t e req found. (t, r, ns, n, found))

  pub retry-Safe :
      RetriesConflicts s → {m : M (Unit {0})} → Safe m → Safe (attempt (s.retry_on_conflict m))
  unfolding attempt
  retry-Safe retries {m} k = record { at = λ t h e. (Attempts-Hist k (retries m t) h, tt) }

  pub answer-Safe : {A : Type 0} (a : A) → Safe (pure a)
  answer-Safe a = Runs-pure a (λ t e. tt)

  -- A refusal makes no call.
  pub fail-Safe : (status : ℕ) (m : Message) → Safe (fail_with status m)
  unfolding fail_with
  fail-Safe status m = answer-Safe _

  known_caller :
      (sub : String)
      → (s.auth_required && str_eq sub "") ≡ false
      → (s.auth_required ≡ false) ⊎ (str_eq sub "" ≡ false)
  known_caller sub h = elim (Bool-cases s.auth_required) [
    | inl on ↦ inr (rw on at h)
    | inr off ↦ inl off
  ]

  pub with_role-Safe :
      {B : Type 0} (role : Role) (r : HttpRequest B) {next : M Response}
      → asks (caller_of r)
      → (HasRole s asks role (caller_of r) → Safe next)
      → Safe (with_role s role r next)
  unfolding with_role require_role
  with_role-Safe role r {next} asked k =
      Runs-if (s.auth_required && str_eq r.sub "") (λ e. fail-Safe _ _)
        (λ e.
          Runs-option (require_role s.roles role r.sub r.groups)
            (λ none_missing. k (record {
              asked = asked;
              role_given = given none_missing;
              known = known_caller r.sub e;
            }))
            (λ m e. fail-Safe _ _))
    where
      given :
          require_role s.roles role r.sub r.groups ≡ none
          → has_role s.roles role r.sub r.groups ≡ true
      given h = elim (Bool-cases (has_role s.roles role r.sub r.groups)) [
        | inl yes_role ↦ yes_role
        | inr no_role ↦ absurd (cc (rw no_role at h))
      ]
