-- ===== src/Gateway/Service.antt =====
-- The gateway's handlers of AgentRequests, one HTTP request after another.
use aip_k8s.Prelude.{String, List, [], ◌∷◌, ◌≡◌, refl, ◌⊎◌, inl, inr}
use aip_k8s.Api.Request.{Decision}
use aip_k8s.Effects.Logic.{Hist}
use aip_k8s.Gateway.Server.{Server, M, Trace, HttpRequest, Response, Caller, caller_of}
use aip_k8s.Gateway.Review.{VerdictBody, handle_verdict, handle_human_decision}
use aip_k8s.Gateway.Review.Safe.{handle_verdict-Safe, handle_human_decision-Safe}
use aip_k8s.Gateway.Lifecycle.{
  ResultBody, handle_get, handle_executing, handle_completed, handle_put_result,
}
use aip_k8s.Gateway.Lifecycle.Safe.{
  handle_get-Safe, handle_executing-Safe, handle_completed-Safe, handle_put_result-Safe,
}
use aip_k8s.Gateway.Listing.{ListQuery, handle_list}
use aip_k8s.Gateway.Listing.Safe.{handle_list-Safe}
use aip_k8s.Gateway.Match.Cached.{IsCacheOf}
use aip_k8s.Gateway.Create.Body.{CreateBody}
use aip_k8s.Gateway.Create.{handle_create}
use aip_k8s.Gateway.Create.Identity.{handle_create-Safe}
use aip_k8s.Gateway.Wait.{handle_watch}
use aip_k8s.Gateway.Wait.Quiet.{handle_watch-Safe}
use aip_k8s.Gateway.Credentials.{handle_get_token}
use aip_k8s.Gateway.Credentials.Safe.{handle_get_token-Safe}
use aip_k8s.Gateway.Safety.{RetriesConflicts, Allowed, Safe}

-- The requests of the routes /agent-requests and /agent-requests/{name}.
pub data Event : Type 0 where
  get executing completed : HttpRequest (Unit {0}) → Event
  list : HttpRequest (Unit {0}) → ListQuery → Event
  result : HttpRequest ResultBody → Event
  approve deny : HttpRequest String → Event
  verdict : HttpRequest VerdictBody → Event
  create : HttpRequest CreateBody → Event
  watch : HttpRequest (Unit {0}) → Event
  token : HttpRequest String → Event

module _ {F : Type 0} (s : Server F) where
  pub serve : Event → M Response
  serve (get r) = handle_get s r
  serve (list r q) = handle_list s r q
  serve (executing r) = handle_executing s r
  serve (completed r) = handle_completed s r
  serve (result r) = handle_put_result s r
  serve (approve r) = handle_human_decision s Decision.approved r
  serve (deny r) = handle_human_decision s Decision.denied r
  serve (verdict r) = handle_verdict s r
  serve (create r) = handle_create s r
  serve (watch r) = handle_watch s r
  serve (token r) = handle_get_token s r

  pub run : List Event → Trace → Trace
  run [] t = t
  run (event ∷ events) t = run events (serve event t).1

-- The caller of an event.
abbrev pub event_caller : Event → Caller
event_caller (get r) = caller_of r
event_caller (list r q) = caller_of r
event_caller (executing r) = caller_of r
event_caller (completed r) = caller_of r
event_caller (result r) = caller_of r
event_caller (approve r) = caller_of r
event_caller (deny r) = caller_of r
event_caller (verdict r) = caller_of r
event_caller (create r) = caller_of r
event_caller (watch r) = caller_of r
event_caller (token r) = caller_of r

-- One of the HTTP requests is from this caller.
abbrev pub Asks : List Event → Caller → Type 0
Asks [] who = ⊥
Asks (event ∷ events) who = (who ≡ event_caller event) ⊎ Asks events who

module _ {F : Type 0} (s : Server F) (asks : Caller → Type 0) (retries : RetriesConflicts s)
    (caches : (t : Trace) → IsCacheOf s.compile (s.glob_cache t)) where
  serve-Safe : (event : Event) → asks (event_caller event) → Safe s asks (serve s event)
  unfolding serve
  serve-Safe (get r) a = handle_get-Safe s asks r
  serve-Safe (list r q) a = handle_list-Safe s asks r q
  serve-Safe (executing r) a = handle_executing-Safe s asks retries r a
  serve-Safe (completed r) a = handle_completed-Safe s asks retries r a
  serve-Safe (result r) a = handle_put_result-Safe s asks retries r a
  serve-Safe (approve r) a = handle_human_decision-Safe s asks Decision.approved r a
  serve-Safe (deny r) a = handle_human_decision-Safe s asks Decision.denied r a
  serve-Safe (verdict r) a = handle_verdict-Safe s asks retries r a
  serve-Safe (create r) a = handle_create-Safe s asks caches r a
  serve-Safe (watch r) a = handle_watch-Safe s asks r
  serve-Safe (token r) a = handle_get_token-Safe s asks r a

  pub run-Allowed :
      (events : List Event)
      → ((who : Caller) → Asks events who → asks who)
      → (t : Trace) → Hist (Allowed s asks) t
      → Hist (Allowed s asks) (run s events t)
  unfolding run
  run-Allowed [] from t h = h
  run-Allowed (event ∷ events) from t h =
      run-Allowed events (λ who a. from who (inr a)) _
        ((serve-Safe event (from _ (inl refl))).at t h tt).0
