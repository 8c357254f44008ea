-- ===== src/Gateway/Rules.antt =====
-- What the gateway's handlers of requests promise over any series of HTTP requests, whatever the
-- cluster answers.
pub mod Admits
use aip_k8s.Prelude.{inl, inr, ◌≡◌, ap, List, []}
use aip_k8s.Api.Request.{AgentRequest}
use aip_k8s.Effects.Logic.{Hist, Hist-map}
use aip_k8s.Gateway.Server.{
  Server, Caller, Call, Trace, patch_object, patch_status, patch_status_locked, mint_token,
}
use aip_k8s.Gateway.Review.{decided_request}
use aip_k8s.Gateway.Match.Cached.{IsCacheOf}
use aip_k8s.Gateway.Safety.{RetriesConflicts, Allowed, IsDecision, IsMint, IsGrade}
use aip_k8s.Gateway.Service.{Event, Asks, run, run-Allowed}

-- A patch keeps the phase.
abbrev pub KeepsPhase : Call → Trace → Type 0
KeepsPhase (patch_object b n) t = n.status.phase ≡ b.status.phase
KeepsPhase (patch_status b n) t = n.status.phase ≡ b.status.phase
KeepsPhase (patch_status_locked b n) t = n.status.phase ≡ b.status.phase
KeepsPhase _ t = Unit

module _ {F : Type 0} (s : Server F) (asks : Caller → Type 0) where
  -- Human decisions are written, and tokens are minted, for requests under review only.
  abbrev pub Reviews : Call → Trace → Type 0
  Reviews (patch_object b n) t = IsDecision s asks b n
  Reviews (mint_token identity action uri name) t = IsMint s asks identity action uri name
  Reviews _ t = Unit

  -- A verdict is written for a request that awaits one.
  abbrev pub GradesOnce : Call → Trace → Type 0
  GradesOnce (patch_status_locked b n) t = IsGrade s asks b n
  GradesOnce _ t = Unit

  reviews : (c : Call) (t : Trace) → Allowed s asks c t → Reviews c t
  reviews (patch_object b n) t a = a
  reviews (mint_token _ _ _ _) t a = a
  reviews _ t a = tt

  grades_once : (c : Call) (t : Trace) → Allowed s asks c t → GradesOnce c t
  grades_once (patch_status_locked b n) t a = a
  grades_once _ t a = tt

  keeps_phase : (c : Call) (t : Trace) → Allowed s asks c t → KeepsPhase c t
  unfolding decided_request
  keeps_phase (patch_object b n) t a = ap (λ (x : AgentRequest). x.status.phase) a.written
  keeps_phase (patch_status b n) t (inl report) = report.phase_eq
  keeps_phase (patch_status b n) t (inr mirror) = mirror.phase_eq
  keeps_phase (patch_status_locked b n) t a = a.phase_eq
  keeps_phase _ t a = tt

module _ {F : Type 0} (s : Server F) (retries : RetriesConflicts s)
    (caches : (t : Trace) → IsCacheOf s.compile (s.glob_cache t)) (events : List Event) where
  -- Over any series of HTTP requests, where RetryOnConflict calls its function again only after a
  -- conflict and returns the last answer, and the cache of globs holds compiled patterns: a human
  -- decision is written, and a token is minted, only for a request that was read as Pending, by the
  -- caller of one of these HTTP requests, who has the reviewer role, whose subject is not the
  -- agentIdentity of the request, and whose subject is known where authentication is required. The
  -- decision is all that the write changes, and names this subject.
  pub run-Reviews : Hist (Reviews s (Asks events)) (run s events [])
  run-Reviews =
      Hist-map (reviews s (Asks events)) _
        (run-Allowed s (Asks events) retries caches events (λ who a. a) [] tt)

  -- Over any series of HTTP requests, where RetryOnConflict calls its function again only after a
  -- conflict and returns the last answer, and the cache of globs holds compiled patterns: a verdict
  -- is written only onto a request that was read as AwaitingVerdict without a verdict, by the caller
  -- of one of these HTTP requests, who has the reviewer role, from a body that passed the checks,
  -- and the write keeps the spec and the phase.
  pub run-GradesOnce : Hist (GradesOnce s (Asks events)) (run s events [])
  run-GradesOnce =
      Hist-map (grades_once s (Asks events)) _
        (run-Allowed s (Asks events) retries caches events (λ who a. a) [] tt)

  -- Over any series of HTTP requests, where RetryOnConflict calls its function again only after a
  -- conflict and returns the last answer, and the cache of globs holds compiled patterns: every
  -- patch of the handlers keeps the phase, which is left to the controller.
  pub run-KeepsPhase : Hist KeepsPhase (run s events [])
  run-KeepsPhase =
      Hist-map (keeps_phase s (Asks events)) _
        (run-Allowed s (Asks events) retries caches events (λ who a. a) [] tt)
