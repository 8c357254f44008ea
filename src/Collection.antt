-- ===== src/Collection.antt =====
-- internal/gc: the collector of old AgentRequests, with config.go and the health check of
-- manager.go. Times are in nanoseconds; log lines are left out, and so is the duration of a scan.
pub mod Safe
pub mod Ends
mod Tests
use aip_k8s.Prelude.{
  ℕ, zero, suc, ◌+◌, ◌*◌, String, Bool, true, false, not, ◌&&◌, Option, none, some, List, [], ◌∷◌,
  str_eq, ltb, ◌==◌, if◌then◌else◌, on_option,
}
use aip_k8s.Api.Request.{Phase, AgentRequest}
use aip_k8s.Controller.Types.{AuditRecord}
use aip_k8s.Effects.{
  Outcome, ok, err, is_not_found, Act, pure, invoke, attempt, wrap_error, ◌>>=◌, ◌>>◌,
}

-- GCConfig; page_size and delete_rate_per_sec only reach the libraries.
pub record GcConfig : Type 0 where
  pub enabled : Bool
  pub interval : ℕ
  pub dry_run : Bool
  pub hard_ttl : ℕ
  pub page_size : ℕ
  pub delete_rate_per_sec : ℕ
  pub safety_min_count : ℕ

pub agent_request_gc_enabled : GcConfig → Bool
agent_request_gc_enabled c = c.enabled && ltb 0 c.hard_ttl

pub default_gc_config : GcConfig
default_gc_config = record {
  enabled = false;
  interval = 3600000000000;
  dry_run = true;
  hard_ttl = 0;
  page_size = 500;
  delete_rate_per_sec = 100;
  safety_min_count = 10;
}

-- `GCManager.Check` at a time: whether it is healthy; no check-in yet is `none`.
pub check : GcConfig → Option ℕ → ℕ → Bool
check c last_check_in now =
    if not c.enabled
    then true
    else on_option last_check_in true
        (λ last. not (ltb (last + (c.interval * 2 + 60000000000)) now))

-- One page of a list, and the token of the next.
pub record Page (A : Type 0) : Type 0 where
  pub items : List A
  pub continue_token : String

pub data Call : Type 0 where
  read_clock : Call
  list_requests : ℕ → String → Call
  list_audits : String → String → ℕ → String → Call  -- namespace, request, limit, token
  wait_limiter : Call
  delete_audit : AuditRecord → Call
  delete_request : AgentRequest → Call
  evaluated_inc deleted_inc : Call
  skipped_inc : String → Call

abbrev pub Trace : Type 0
Trace = List Call

abbrev pub M : Type 0 → Type 0
M = Act Call

pub record Worker : Type 0 where
  pub config : GcConfig
  pub clock : Trace → ℕ
  pub on_list_requests : Trace → ℕ → String → Outcome (Page AgentRequest)
  pub on_list_audits : Trace → String → String → ℕ → String → Outcome (Page AuditRecord)
  pub on_wait : Trace → Outcome (Unit {0})
  pub on_delete_audit : Trace → AuditRecord → Outcome (Unit {0})
  pub on_delete_request : Trace → AgentRequest → Outcome (Unit {0})

pub is_terminal : Phase → Bool
is_terminal Phase.completed = true
is_terminal Phase.failed = true
is_terminal Phase.denied = true
is_terminal Phase.expired = true
is_terminal _ = false

pub data ProcessResult : Type 0 where
  nothing deleted skipped : ProcessResult

pub terminal_count : List AgentRequest → ℕ
terminal_count [] = 0
terminal_count (ar ∷ items) =
    if is_terminal ar.status.phase then suc (terminal_count items) else terminal_count items

-- `client.IgnoreNotFound(err) != nil`
delete_failed : Outcome (Unit {0}) → Bool
delete_failed (ok _) = false
delete_failed (err e) = not (is_not_found e)

tick : Call → M (Unit {0})
tick c = invoke c (λ _. ok tt)

-- The loops over pages take fuel; `none` means that it ran out.
module _ (w : Worker) where
  now : M ℕ
  now = invoke read_clock (λ t. ok (w.clock t))

  list_requests_m : ℕ → String → M (Page AgentRequest)
  list_requests_m limit token =
      invoke (list_requests limit token) (λ t. w.on_list_requests t limit token)

  list_audits_m : AgentRequest → String → M (Page AuditRecord)
  list_audits_m ar token =
      invoke (list_audits ar.namespace ar.name w.config.page_size token)
        (λ t. w.on_list_audits t ar.namespace ar.name w.config.page_size token)

  -- A record that cannot be deleted is logged and left.
  delete_audits : List AuditRecord → M (Unit {0})
  delete_audits [] = pure tt
  delete_audits (a ∷ items) = do
    attempt (invoke (delete_audit a) (λ t. w.on_delete_audit t a))
    delete_audits items

  audit_pages : ℕ → AgentRequest → String → M (Option (Unit {0}))
  audit_pages zero ar token = pure none
  audit_pages (suc fuel) ar token =
      let rest = λ (next : String). audit_pages fuel ar next in
      (do
        listed ← attempt (list_audits_m ar token)
        page ← wrap_error "ar gc list auditrecords" listed
        delete_audits page.items
        if str_eq page.continue_token "" then pure (some tt) else rest page.continue_token)

  request_deleted : Outcome (Unit {0}) → M (Option ProcessResult)
  request_deleted answer =
      if delete_failed answer then pure (some nothing) else do tick deleted_inc; pure (some deleted)

  collect : ℕ → AgentRequest → M (Option ProcessResult)
  collect fuel ar = do
    waited ← attempt (invoke wait_limiter w.on_wait)
    wrap_error "ar gc rate limiter" waited
    audits ← audit_pages fuel ar ""
    on_option audits (pure none) (λ _. do
      answer ← attempt (invoke (delete_request ar) (λ t. w.on_delete_request t ar))
      request_deleted answer)

  -- `age < HardTTL`
  too_young : AgentRequest → ℕ → Bool
  too_young ar time = ltb time (ar.created + w.config.hard_ttl)

  process_request : ℕ → AgentRequest → M (Option ProcessResult)
  process_request fuel ar = if not (is_terminal ar.status.phase) then pure (some nothing) else do
    time ← now
    if too_young ar time
        then pure (some nothing)
        else (if w.config.dry_run
            then (do tick (skipped_inc "dry_run"); pure (some skipped))
            else collect fuel ar)

  process_items : ℕ → List AgentRequest → M (Option (Unit {0}))
  process_items fuel [] = pure (some tt)
  process_items fuel (ar ∷ items) =
      let rest = process_items fuel items in
      (do
        tick evaluated_inc
        processed ← process_request fuel ar
        on_option processed (pure none) (λ _. rest))

  request_pages : ℕ → ℕ → String → M (Option (Unit {0}))
  request_pages zero fuel token = pure none
  request_pages (suc rounds) fuel token =
      let rest = λ (next : String). request_pages rounds fuel next in
      (do
        listed ← attempt (list_requests_m w.config.page_size token)
        page ← wrap_error "ar gc list page" listed
        processed ← process_items fuel page.items
        on_option processed (pure none) (λ _.
            if str_eq page.continue_token "" then pure (some tt) else rest page.continue_token))

  -- The safety valve: too few terminal requests, and no more to list.
  valve_closed : Page AgentRequest → Bool
  valve_closed page =
      ltb (terminal_count page.items) w.config.safety_min_count && str_eq page.continue_token ""

  scan : ℕ → ℕ → M (Option (Unit {0}))
  scan rounds fuel = do
    listed ← attempt (list_requests_m (w.config.safety_min_count + 1) "")
    counted ← wrap_error "ar gc safety-valve list" listed
    if valve_closed counted
        then (do tick (skipped_inc "safety_valve"); pure (some tt))
        else request_pages rounds fuel ""

  -- `Run`, with fuel for the pages of requests and for the pages of one request's audit records.
  pub run : ℕ → ℕ → M (Option (Unit {0}))
  run rounds fuel = if w.config.hard_ttl == 0 then pure (some tt) else scan rounds fuel
