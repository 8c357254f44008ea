-- ===== src/Gateway/Wait/Quiet.antt =====
-- Waiting for the outcome of a request writes nothing to the cluster.
use aip_k8s.Prelude.{ℕ, zero, suc, String, Bool, not, ◌&&◌, none, some, List, [], ◌∷◌, str_eq}
use aip_k8s.Api.Request.{AgentRequest}
use aip_k8s.Effects.{Outcome, ok, err, is_not_found, invoke}
use aip_k8s.Effects.Logic.{
  Keeps, Keeps-pure, Keeps-invoke, Keeps-attempt, Keeps-bind, Keeps-then, Keeps-if, Keeps-ignore,
  Runs-keep,
}
use aip_k8s.Gateway.Server.{
  Server, Caller, M, Call, Trace, HttpRequest, Response, Body, WatchEvent, WatchEnd, client,
  api_reader, changed, watch_error, deleted, bookmark, timed_out, disconnected, closed, wait,
  get_request, watch_request, write_event, flush,
}
use aip_k8s.Gateway.Review.{fail_with, is_phase}
use aip_k8s.Gateway.Safety.{Allowed, Safe}
use aip_k8s.Gateway.Wait.{
  poll_phase, requires_approval, is_terminal_or_actionable, poll_ended, polled, poll_loop,
  poll_agent_request_phase, write_event_error, result_event, repeats, stream_ended, written,
  stream_loop, watched, start_watch, stream_from, flushed, stream_agent_request_phase,
  await_outcome, watch_from, handle_watch,
}

module _ {F : Type 0} (s : Server F) (asks : Caller → Type 0) where
  abbrev pub Quiet : {A : Type 0} → M A → Type 0
  Quiet m = Keeps (Allowed s asks) (λ _. Unit) m

  pub plain :
      {A : Type 0} (call : Call) (f : Trace → Outcome A)
      → ((t : Trace) → Allowed s asks call t)
      → Quiet (invoke call f)
  plain call f p = Keeps-invoke call f (λ t e. p t) (λ t e. tt)

  pub Quiet-Safe : {A : Type 0} {m : M A} → Quiet m → Safe s asks m
  Quiet-Safe k = Runs-keep k

  pub event-Quiet :
      (kind : String) (body : Body)
      → Quiet (invoke (write_event kind body) (λ t. s.on_write_event t kind body))
  event-Quiet kind body = plain (write_event kind body) _ (λ t. tt)

  poll_ended-Quiet : Quiet (poll_ended s)
  unfolding poll_ended
  poll_ended-Quiet = Keeps-bind (plain wait _ (λ t. tt)) (λ gone. Keeps-pure _)

  polled-Quiet :
      (labels : List (String × String)) {rest : M Response} (answer : Outcome AgentRequest)
      → Quiet rest
      → Quiet (polled s labels rest answer)
  unfolding polled
  polled-Quiet labels (err e) k = k
  polled-Quiet labels (ok req) k =
      Keeps-if (poll_phase req) (Keeps-pure _) (Keeps-if (requires_approval s req) (Keeps-pure _) k)

  poll_loop-Quiet :
      (n : ℕ) (ns name : String) (labels : List (String × String))
      → Quiet (poll_loop s n ns name labels)
  unfolding poll_loop
  poll_loop-Quiet zero ns name labels = poll_ended-Quiet
  poll_loop-Quiet (suc n) ns name labels = Keeps-then (plain wait _ (λ t. tt)) (
      Keeps-bind (Keeps-attempt (plain (get_request client ns name) _ (λ t. tt)))
        (λ answer. polled-Quiet labels answer (poll_loop-Quiet n ns name labels)))

  poll-Quiet :
      (name ns : String) (labels : List (String × String))
      → Quiet (poll_agent_request_phase s name ns labels)
  unfolding poll_agent_request_phase
  poll-Quiet name ns labels =
      Keeps-bind (plain wait _ (λ t. tt)) (λ n. poll_loop-Quiet n ns name labels)

  error-Quiet : (m : Body) → Quiet (write_event_error s m)
  unfolding write_event_error
  error-Quiet m = Keeps-then (Keeps-ignore (event-Quiet "error" m)) (Keeps-pure _)

  result-Quiet :
      (req : AgentRequest) (labels : List (String × String)) → Quiet (result_event s req labels)
  unfolding result_event
  result-Quiet req labels = Keeps-then (Keeps-ignore (event-Quiet "result" _)) (Keeps-pure _)

  written-Quiet :
      {rest : M Response} (answer : Outcome (Unit {0})) → Quiet rest → Quiet (written s rest answer)
  unfolding written
  written-Quiet (ok _) k = k
  written-Quiet (err e) k = Keeps-pure _

  flushed-Quiet :
      {rest : M Response} (answer : Outcome (Unit {0})) → Quiet rest → Quiet (flushed s rest answer)
  unfolding flushed
  flushed-Quiet (ok _) k = k
  flushed-Quiet (err e) k = Keeps-pure _

  stream_ended-Quiet : (end : WatchEnd) → Quiet (stream_ended s end)
  unfolding stream_ended
  stream_ended-Quiet timed_out = error-Quiet _
  stream_ended-Quiet disconnected = Keeps-pure _
  stream_ended-Quiet closed = error-Quiet _

  module _ (name : String) (labels : List (String × String)) where
    stream_loop-Quiet :
        (end : WatchEnd) (delivered : List WatchEvent) (last : String)
        → Quiet (stream_loop s name labels end delivered last)
    unfolding stream_loop
    stream_loop-Quiet end [] last = stream_ended-Quiet end
    stream_loop-Quiet end (watch_error ∷ rest) last = error-Quiet _
    stream_loop-Quiet end (deleted ∷ rest) last = error-Quiet _
    stream_loop-Quiet end (bookmark ∷ rest) last = stream_loop-Quiet end rest last
    stream_loop-Quiet end (changed none ∷ rest) last = stream_loop-Quiet end rest last
    stream_loop-Quiet end (changed (some req) ∷ rest) last =
        Keeps-if (not (str_eq req.name name)) (stream_loop-Quiet end rest last) (
          Keeps-if (is_terminal_or_actionable s req) (result-Quiet req labels) (
            Keeps-if (repeats s last req) (stream_loop-Quiet end rest last) (
              Keeps-bind (Keeps-attempt (event-Quiet "update" _))
                (λ answer. written-Quiet answer (stream_loop-Quiet end rest _)))))

    start_watch-Quiet : (ns : String) → Quiet (start_watch s name ns labels)
    unfolding start_watch watched
    start_watch-Quiet ns =
        Keeps-bind (Keeps-attempt (plain (watch_request ns name) _ (λ t. tt))) watched-Quiet
      where
        watched-Quiet :
            (answer : Outcome (List WatchEvent × WatchEnd)) → Quiet (watched s name labels answer)
        watched-Quiet (ok (delivered, end)) = stream_loop-Quiet end delivered ""
        watched-Quiet (err e) = error-Quiet _

    stream_from-Quiet :
        (ns : String) (answer : Outcome AgentRequest) → Quiet (stream_from s name ns labels answer)
    unfolding stream_from
    stream_from-Quiet ns (err e) = error-Quiet _
    stream_from-Quiet ns (ok req) =
        Keeps-if (is_terminal_or_actionable s req) (result-Quiet req labels) (
          Keeps-if (not (is_phase "" req))
            (Keeps-bind (Keeps-attempt (event-Quiet "update" _))
              (λ answer. written-Quiet answer (start_watch-Quiet ns)))
            (start_watch-Quiet ns))

    stream-Quiet : (ns : String) → Quiet (stream_agent_request_phase s name ns labels)
    unfolding stream_agent_request_phase
    stream-Quiet ns = Keeps-bind (Keeps-attempt (plain flush _ (λ t. tt))) (λ answer.
        flushed-Quiet answer (
          Keeps-bind (Keeps-attempt (plain (get_request api_reader ns name) _ (λ t. tt)))
            (stream_from-Quiet ns)))

    pub await_outcome-Quiet :
        (sse : Bool) (ns : String) → Quiet (await_outcome s sse name ns labels)
    unfolding await_outcome
    await_outcome-Quiet sse ns = Keeps-if sse (stream-Quiet ns) (poll-Quiet name ns labels)

  watch_from-Quiet :
      (r : HttpRequest (Unit {0})) (ns : String) (answer : Outcome AgentRequest)
      → Quiet (watch_from s r ns answer)
  unfolding watch_from fail_with
  watch_from-Quiet r ns (err e) = Keeps-if (is_not_found e) (Keeps-pure _) (Keeps-pure _)
  watch_from-Quiet r ns (ok req) =
      Keeps-if (is_terminal_or_actionable s req)
        (Keeps-bind (Keeps-attempt (plain flush _ (λ t. tt)))
          (λ answer. flushed-Quiet answer (result-Quiet req req.labels)))
        (stream-Quiet r.name req.labels ns)

  pub handle_watch-Safe : (r : HttpRequest (Unit {0})) → Safe s asks (handle_watch s r)
  unfolding handle_watch fail_with
  handle_watch-Safe r = Quiet-Safe (
      Keeps-if (s.auth_required && str_eq r.sub "") (Keeps-pure _) (
        Keeps-if (str_eq r.name "") (Keeps-pure _) (
          Keeps-if (not r.accepts_sse) (Keeps-pure _) (
            Keeps-bind (Keeps-attempt (plain (get_request client _ r.name) _ (λ t. tt)))
              (watch_from-Quiet r _)))))
