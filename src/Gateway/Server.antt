-- ===== src/Gateway/Server.antt =====
-- `Server` of cmd/gateway/server.go and its surroundings: the calls that the handlers make, how they
-- are answered, and what an HTTP request and a response carry. `F` stands for float64.
use aip_k8s.Prelude.{ℕ, String, Bool, Option, List, str_eq, if◌then◌else◌}
use aip_k8s.Prelude.Chars.{Char}
use aip_k8s.Api.Naming.{profile_name_for_agent}
use aip_k8s.Api.Request.{AgentRequest, Condition, Message, Phase}
use aip_k8s.Api.Trust.{TrustProfile, GraduationPolicy}
use aip_k8s.Effects.{Err, Outcome, ok, Act, invoke}
use aip_k8s.Gateway.Roles.{RoleConfig}
use aip_k8s.Gateway.Registrations.{RegistrationCache, Provider}
use aip_k8s.Gateway.Match.{Cache}
use aip_k8s.Api.Policy.{GovernedResource}
use aip_k8s.Controller.Types.{ℤ}

-- `s.client` reads from the informer cache, `s.apiReader` from the API server.
pub data Reader : Type 0 where
  client api_reader : Reader

-- What a handler writes: writeError and writeJSON with a status code.
pub data Body : Type 0 where
  error : Message → Body
  error_of : Err → Body  -- err.Error()
  error_with : String → Err → Body  -- fmt.Sprintf("…: %v", err)
  message : String → Body
  decided : String → Option (String × ℕ) → Phase → Body  -- name, token with its expiry, phase
  details : AgentRequest → List String → Body
  -- fields of a request, with the labels that were asked for
  outcome : AgentRequest → List (String × String) → Body
  approval_pending : AgentRequest → List (String × String) → Body
  duplicate : AgentRequest → List (String × String) → Body
  listed : List AgentRequest → Body
  page : List AgentRequest → String → Body  -- with the token of the next page
  token : String → String → Body  -- a credential and its service
  streamed : Body  -- server-sent events
  unwritten : Body  -- nothing is written

-- What the watch of a request delivers before it ends; `none` is an object of another type.
pub data WatchEvent : Type 0 where
  changed : Option AgentRequest → WatchEvent  -- added or modified
  watch_error deleted bookmark : WatchEvent

-- The context times out, or ends with the client's, or the channel closes.
pub data WatchEnd : Type 0 where
  timed_out disconnected closed : WatchEnd

-- client.ListOption
pub record ListOptions : Type 0 where
  pub namespace : String
  pub labels : List (String × String)
  pub phase : Option String  -- of the field index
  pub limit : Option ℕ
  pub continue_token : Option String

pub data Call : Type 0 where
  read_clock : Call
  get_request : Reader → String → String → Call  -- a namespace and a name
  get_profile : String → String → Call
  get_policy : String → String → Call
  list_requests : ListOptions → Call
  list_audit_events : String → Call
  patch_object : AgentRequest → AgentRequest → Call  -- the base and the object
  patch_status : AgentRequest → AgentRequest → Call
  patch_status_locked : AgentRequest → AgentRequest → Call  -- MergeFromWithOptimisticLock
  mint_token : String → String → String → String → Call
  set_variable : String → Call  -- an assignment to a variable that a closure captures
  read_registrations : Call
  list_resources : Call
  create_request : AgentRequest → Call
  delete_request : AgentRequest → Call
  fetch_credential : Provider → String → Call  -- with the caller's token
  wait : Call  -- for the next tick, or the end of the context
  watch_request : String → String → Call
  write_event : String → Body → Call
  flush : Call

abbrev pub Trace : Type 0
Trace = List Call

abbrev pub M : Type 0 → Type 0
M = Act Call

pub record Response : Type 0 where
  pub status : ℕ
  pub body : Body

-- An http.Request: the caller as the middleware has put it in the context, the path and the query,
-- and the decoded body, `none` where it does not decode.
pub record HttpRequest (B : Type 0) : Type 0 where
  pub sub : String
  pub groups : List String
  pub issuer : String
  pub raw_token : String
  pub accepts_sse : Bool
  pub name : String
  pub namespace : String
  pub body : Option B

-- Who has sent an HTTP request, by the claims of the token.
pub record Caller : Type 0 where
  pub sub : String
  pub groups : List String
  pub issuer : String

abbrev pub caller_of : {B : Type 0} → HttpRequest B → Caller
caller_of r = record { sub = r.sub; groups = r.groups; issuer = r.issuer }

pub record Server (F : Type 0) : Type 0 where
  pub auth_required : Bool
  pub roles : RoleConfig
  pub has_jwt_manager : Bool
  pub require_governed_resource : Bool
  pub unregistered_agent_policy : String
  pub dedup_window : ℕ
  pub registrations : Option (Trace → RegistrationCache)
  -- The compiled patterns at each use, and the compilation of a glob.
  pub glob_cache : Trace → Cache
  pub compile : String → Option (String → Bool)
  pub is_status_condition_true : List Condition → String → Bool
  pub is_positive : String → Bool  -- a JSON number above 0
  pub parse_int : String → Option ℤ  -- strconv.ParseInt in base 10
  pub format_int : ℕ → String
  pub status_json : AgentRequest → Option String
  -- How often the ticker of a poll fires before its context ends.
  pub ticks : Trace → ℕ
  pub client_gone : Trace → Bool  -- r.Context().Err() != nil
  -- retry.RetryOnConflict with DefaultRetry
  pub retry_on_conflict : M (Unit {0}) → M (Unit {0})
  pub trim_space : String → String
  pub quote : String → String  -- %q
  pub rune_count : String → ℕ
  pub has_https_prefix : String → Bool
  pub to_lower : Char → Char  -- unicode.ToLower
  pub sha256 : String → List ℕ
  pub set_status_condition : Trace → List Condition → Condition → List Condition
  -- The clock, the Kubernetes API and the JWT manager.
  pub clock : Trace → ℕ
  pub on_get_request : Trace → Reader → String → String → Outcome AgentRequest
  pub on_get_profile : Trace → String → String → Outcome (TrustProfile F)
  pub on_get_policy : Trace → String → String → Outcome (GraduationPolicy F)
  -- with the token of the next page
  pub on_list_requests : Trace → ListOptions → Outcome (List AgentRequest × String)
  pub on_list_audit_events : Trace → String → Outcome (List (String × String))
  pub on_patch_object : Trace → AgentRequest → AgentRequest → Outcome AgentRequest
  pub on_patch_status : Trace → AgentRequest → AgentRequest → Outcome (Unit {0})
  pub on_patch_status_locked : Trace → AgentRequest → AgentRequest → Outcome (Unit {0})
  pub on_list_resources : Trace → Outcome (List GovernedResource)
  pub on_create_request : Trace → AgentRequest → Outcome AgentRequest
  pub on_delete_request : Trace → AgentRequest → Outcome (Unit {0})
  pub on_fetch_credential : Trace → Provider → String → Outcome String
  pub on_watch_request : Trace → String → String → Outcome (List WatchEvent × WatchEnd)
  pub on_write_event : Trace → String → Body → Outcome (Unit {0})
  pub on_flush : Trace → Outcome (Unit {0})
  pub on_mint_token : Trace → String → String → String → String → Outcome (String × ℕ)

-- `if ns == "" { ns = defaultNamespace }`
abbrev pub namespace_or_default : String → String
namespace_or_default ns = if str_eq ns "" then "default" else ns

module _ {F : Type 0} (s : Server F) where
  abbrev pub profile_name : String → String
  profile_name = profile_name_for_agent s.to_lower s.sha256

  abbrev pub now : M ℕ
  now = invoke read_clock (λ t. ok (s.clock t))

  abbrev pub get_request_m : Reader → String → String → M AgentRequest
  get_request_m r ns n = invoke (get_request r ns n) (λ t. s.on_get_request t r ns n)

  abbrev pub get_profile_m : String → String → M (TrustProfile F)
  get_profile_m ns n = invoke (get_profile ns n) (λ t. s.on_get_profile t ns n)

  abbrev pub get_policy_m : String → String → M (GraduationPolicy F)
  get_policy_m ns n = invoke (get_policy ns n) (λ t. s.on_get_policy t ns n)

  abbrev pub list_requests_m : ListOptions → M (List AgentRequest × String)
  list_requests_m options = invoke (list_requests options) (λ t. s.on_list_requests t options)

  -- The spec.agentRequestRef and spec.event of each AuditRecord.
  abbrev pub list_audit_events_m : String → M (List (String × String))
  list_audit_events_m ns = invoke (list_audit_events ns) (λ t. s.on_list_audit_events t ns)

  -- The server's answer is left in the object.
  abbrev pub patch_object_m : AgentRequest → AgentRequest → M AgentRequest
  patch_object_m b n = invoke (patch_object b n) (λ t. s.on_patch_object t b n)

  abbrev pub patch_status_m : AgentRequest → AgentRequest → M (Unit {0})
  patch_status_m b n = invoke (patch_status b n) (λ t. s.on_patch_status t b n)

  abbrev pub patch_status_locked_m : AgentRequest → AgentRequest → M (Unit {0})
  patch_status_locked_m b n = invoke (patch_status_locked b n) (λ t. s.on_patch_status_locked t b n)

  abbrev pub mint_token_m : String → String → String → String → M (String × ℕ)
  mint_token_m a b c d = invoke (mint_token a b c d) (λ t. s.on_mint_token t a b c d)

  abbrev pub read_registrations_m : (Trace → RegistrationCache) → M RegistrationCache
  read_registrations_m f = invoke read_registrations (λ t. ok (f t))

  abbrev pub list_resources_m : M (List GovernedResource)
  list_resources_m = invoke list_resources s.on_list_resources

  -- The server's answer is left in the object.
  abbrev pub create_request_m : AgentRequest → M AgentRequest
  create_request_m n = invoke (create_request n) (λ t. s.on_create_request t n)

  abbrev pub delete_request_m : AgentRequest → M (Unit {0})
  delete_request_m n = invoke (delete_request n) (λ t. s.on_delete_request t n)

  abbrev pub fetch_credential_m : Provider → String → M String
  fetch_credential_m p raw = invoke (fetch_credential p raw) (λ t. s.on_fetch_credential t p raw)

  abbrev pub watch_request_m : String → String → M (List WatchEvent × WatchEnd)
  watch_request_m ns n = invoke (watch_request ns n) (λ t. s.on_watch_request t ns n)

  -- `writeSSEEvent`
  abbrev pub write_event_m : String → Body → M (Unit {0})
  write_event_m kind body = invoke (write_event kind body) (λ t. s.on_write_event t kind body)

  abbrev pub flush_m : M (Unit {0})
  flush_m = invoke flush s.on_flush
