-- ===== src/Gateway/Wait.antt =====
-- The gateway waits for the outcome of a request: pollAgentRequestPhase of
-- cmd/gateway/agent_request_handlers.go, and streamAgentRequestPhase and handleWatchAgentRequest of
-- cmd/gateway/sse.go.
pub mod Quiet
use aip_k8s.Prelude.{
  ℕ, zero, suc, String, Bool, false, not, ◌&&◌, ◌||◌, none, some, List, [], ◌∷◌, str_eq,
  if◌then◌else◌, on_option,
}
use aip_k8s.Api.Request.{AgentRequest, text, sprintf, str}
use aip_k8s.Effects.{Outcome, ok, err, is_not_found, pure, attempt, ignore, invoke, ◌>>=◌, ◌>>◌}
use aip_k8s.Gateway.Server.{
  Server, M, HttpRequest, Response, Body, WatchEvent, WatchEnd, client, api_reader, changed,
  watch_error, deleted, bookmark, timed_out, disconnected, closed, wait, error, error_with, outcome,
  approval_pending, streamed, unwritten, namespace_or_default, get_request_m, watch_request_m,
  write_event_m, flush_m,
}
use aip_k8s.Gateway.Review.{respond, fail, fail_with, is_phase}

abbrev pub no_response : Response
no_response = respond 0 unwritten

-- The response of server-sent events has been begun.
abbrev pub events : Response
events = respond 200 streamed

-- The phases in which a poll ends.
poll_phase : AgentRequest → Bool
poll_phase req =
    is_phase "Approved" req
    || is_phase "Denied" req
    || is_phase "Completed" req
    || is_phase "Failed" req
    || is_phase "AwaitingVerdict" req

module _ {F : Type 0} (s : Server F) where
  requires_approval : AgentRequest → Bool
  requires_approval req =
      is_phase "Pending" req && s.is_status_condition_true req.status.conditions "RequiresApproval"

  is_terminal_or_actionable : AgentRequest → Bool
  is_terminal_or_actionable req = poll_phase req || is_phase "Expired" req || requires_approval req

  -- After the last tick the context is done.
  poll_ended : M Response
  poll_ended = do
    gone ← invoke wait (λ t. ok (s.client_gone t))
    pure (
        if gone
        then no_response
        else respond 504 (error (text "timed out waiting for AgentRequest resolution")))

  polled : List (String × String) → M Response → Outcome AgentRequest → M Response
  polled labels rest (err e) = rest
  polled labels rest (ok req) =
      if poll_phase req
      then pure (respond 201 (outcome req labels))
      else (if requires_approval req
          then pure (respond 201 (approval_pending req labels))
          else rest)

  -- The rest of the loop, for the ticks that are left.
  poll_loop : ℕ → String → String → List (String × String) → M Response
  poll_loop zero ns name labels = poll_ended
  poll_loop (suc n) ns name labels =
      let rest = poll_loop n ns name labels in
      (do
        invoke wait (λ t. ok tt)
        answer ← attempt (get_request_m s client ns name)
        polled labels rest answer)

  pub poll_agent_request_phase : String → String → List (String × String) → M Response
  poll_agent_request_phase name ns labels = do
    n ← invoke wait (λ t. ok (s.ticks t))
    poll_loop n ns name labels

  -- An error of the write is logged.
  write_event_error : Body → M Response
  write_event_error m = do ignore (write_event_m s "error" m); pure events

  result_event : AgentRequest → List (String × String) → M Response
  result_event req labels = do ignore (write_event_m s "result" (outcome req labels)); pure events

  -- An update whose status is the last one is left out.
  repeats : String → AgentRequest → Bool
  repeats last req = on_option (s.status_json req) false (λ json. str_eq json last)

  stream_ended : WatchEnd → M Response
  stream_ended timed_out =
      write_event_error (error (text "timed out waiting for AgentRequest resolution"))
  stream_ended disconnected = pure events
  stream_ended closed = write_event_error (error (text "watch channel closed unexpectedly"))

  written : M Response → Outcome (Unit {0}) → M Response
  written rest (ok _) = rest
  written rest (err e) = pure events

  -- The loop of the stream, with lastStatusJSON.
  stream_loop : String → List (String × String) → WatchEnd → List WatchEvent → String → M Response
  stream_loop name labels end [] last = stream_ended end
  stream_loop name labels end (watch_error ∷ rest) last =
      write_event_error (error (text "watch error from API server"))
  stream_loop name labels end (deleted ∷ rest) last =
      write_event_error (error (text "AgentRequest was deleted"))
  stream_loop name labels end (bookmark ∷ rest) last = stream_loop name labels end rest last
  stream_loop name labels end (changed none ∷ rest) last = stream_loop name labels end rest last
  stream_loop name labels end (changed (some req) ∷ rest) last =
      let skipped = stream_loop name labels end rest last in
      let next =
        stream_loop name labels end rest (on_option (s.status_json req) last (λ json. json)) in
      if not (str_eq req.name name)
      then skipped
      else (if is_terminal_or_actionable req
          then result_event req labels
          else (if repeats last req then skipped else (do
            answer ← attempt (write_event_m s "update" (outcome req labels))
            written next answer)))

  watched : String → List (String × String) → Outcome (List WatchEvent × WatchEnd) → M Response
  watched name labels (ok (delivered, end)) = stream_loop name labels end delivered ""
  watched name labels (err e) = write_event_error (error_with "failed to watch AgentRequest: %v" e)

  -- The watch starts at the resource version that was read.
  start_watch : String → String → List (String × String) → M Response
  start_watch name ns labels = do
    answer ← attempt (watch_request_m s ns name)
    watched name labels answer

  stream_from : String → String → List (String × String) → Outcome AgentRequest → M Response
  stream_from name ns labels (err e) =
      write_event_error (error_with "failed to get AgentRequest: %v" e)
  stream_from name ns labels (ok req) =
      if is_terminal_or_actionable req
      then result_event req labels
      else (if not (is_phase "" req)
          then (do
            answer ← attempt (write_event_m s "update" (outcome req labels))
            written (start_watch name ns labels) answer)
          else start_watch name ns labels)

  flushed : M Response → Outcome (Unit {0}) → M Response
  flushed rest (ok _) = rest
  flushed rest (err e) = pure events

  pub stream_agent_request_phase : String → String → List (String × String) → M Response
  stream_agent_request_phase name ns labels = do
    answer ← attempt (flush_m s)
    flushed
        (do read ← attempt (get_request_m s api_reader ns name); stream_from name ns labels read)
        answer

  -- The end of the create handler.
  pub await_outcome : Bool → String → String → List (String × String) → M Response
  await_outcome sse name ns labels =
      if sse
      then stream_agent_request_phase name ns labels
      else poll_agent_request_phase name ns labels

  watch_from : HttpRequest (Unit {0}) → String → Outcome AgentRequest → M Response
  watch_from r ns (err e) =
      if is_not_found e
      then fail_with 404 (sprintf "AgentRequest %s not found" (str r.name ∷ []))
      else pure (respond 500 (error_with "failed to get AgentRequest: %v" e))
  watch_from r ns (ok req) =
      if is_terminal_or_actionable req
      then (do answer ← attempt (flush_m s); flushed (result_event req req.labels) answer)
      else stream_agent_request_phase r.name ns req.labels

  pub handle_watch : HttpRequest (Unit {0}) → M Response
  handle_watch r =
      if s.auth_required && str_eq r.sub ""
      then fail 401 "caller identity required"
      else (if str_eq r.name ""
          then fail 400 "name is required"
          else (if not r.accepts_sse
              then fail 400 "Accept header must include text/event-stream"
              else (do
                answer ← attempt (get_request_m s client (namespace_or_default r.namespace) r.name)
                watch_from r (namespace_or_default r.namespace) answer)))
