-- ===== src/Gateway/Listing.antt =====
-- `handleListAgentRequests` of cmd/gateway/agent_request_lifecycle_handlers.go.
pub mod Safe
mod Tests
use aip_k8s.Prelude.{
  ℕ, suc, String, not, ◌&&◌, ◌||◌, ◌⊎◌, inl, inr, Option, none, some, List, [], ◌∷◌, ◌++◌, ◌==◌,
  map, str_eq, ltb, length, contains, if◌then◌else◌, on_option,
}
use aip_k8s.Prelude.Chars.{Char, code, chars, text_of}
use aip_k8s.Api.Request.{AgentRequest, phase_name, sprintf, str}
use aip_k8s.Controller.Types.{ℤ, pos}
use aip_k8s.Effects.{Outcome, ok, err, is_invalid, is_bad_request, pure, attempt, ◌>>=◌}
use aip_k8s.Gateway.Names.{sanitize_label_value}
use aip_k8s.Gateway.Server.{
  Server, M, HttpRequest, Response, ListOptions, error_of, listed, page, namespace_or_default,
  list_requests_m,
}
use aip_k8s.Gateway.Review.{respond, fail, fail_with}

-- The parameters of the URL's query; a missing one is the empty string.
pub record ListQuery : Type 0 where
  pub agent_identity : String
  pub correlation_id : String
  pub classification : String
  pub phase : String
  pub limit : String
  pub continue_token : String

-- The keys of `validPhases`, sorted.
abbrev pub valid_phases : List String
valid_phases =
    "Approved" ∷ "AwaitingVerdict" ∷ "Completed" ∷ "Denied" ∷ "Executing" ∷ "Expired" ∷ "Failed"
    ∷ "Observed" ∷ "Pending" ∷ []

abbrev valid_text : String
valid_text =
    "Approved, AwaitingVerdict, Completed, Denied, Executing, Expired, Failed, Observed, Pending"

with_char : Char → List (List Char) → List (List Char)
with_char c [] = (c ∷ []) ∷ []
with_char c (part ∷ parts) = (c ∷ part) ∷ parts

-- strings.SplitSeq at commas
split : List Char → List (List Char)
split [] = [] ∷ []
split (c ∷ s) = let rest = split s in if code c == b',' then [] ∷ rest else with_char c rest

-- The phases that are asked for, or the first that is not valid.
parsed : (String → String) → List String → String ⊎ List String
parsed trim [] = inr []
parsed trim (part ∷ parts) =
    let p = trim part in
    let rest = parsed trim parts in
    if str_eq p ""
    then rest
    else (if not (contains valid_phases p)
        then inl p
        else elim rest [ inl bad ↦ inl bad | inr phases ↦ inr (p ∷ phases) ])

pub requested_phases : (String → String) → String → String ⊎ List String
requested_phases trim phase =
    if str_eq phase "" then inr [] else parsed trim (map text_of (split (chars phase)))

label_for : String → String → List (String × String)
label_for key value = if str_eq value "" then [] else (key, sanitize_label_value value) ∷ []

-- A single phase is left to the field index.
single : List String → Option String
single (p ∷ []) = some p
single _ = none

positive : Option ℤ → Option ℕ
positive (some (pos (suc n))) = some (suc n)
positive _ = none

-- The limit, where one is given; `none` where it is not valid.
limit_of : (String → Option ℤ) → String → Option (Option ℕ)
limit_of parse_int limit =
    if str_eq limit ""
    then some none
    else on_option (positive (parse_int limit)) none (λ n. some (some n))

pub in_phases : List String → List AgentRequest → List AgentRequest
in_phases phases [] = []
in_phases phases (req ∷ items) =
    let rest = in_phases phases items in
    if contains phases (phase_name req.status.phase) then req ∷ rest else rest

pub filtered : List String → List AgentRequest → List AgentRequest
filtered phases items = if ltb 1 (length phases) then in_phases phases items else items

list_answer : ListQuery → List String → Outcome (List AgentRequest × String) → Response
list_answer q phases (err e) =
    respond (if is_bad_request e || is_invalid e then 400 else 500) (error_of e)
list_answer q phases (ok (items, token)) = respond 200 (
    if not (str_eq q.limit "") || not (str_eq q.continue_token "")
    then page (filtered phases items) token
    else listed (filtered phases items))

options_of : String → ListQuery → List String → Option ℕ → ListOptions
options_of ns q phases limit = record {
  namespace = namespace_or_default ns;
  labels =
      label_for "aip.io/agentIdentity" q.agent_identity
      ++ label_for "aip.io/correlationID" q.correlation_id
      ++ label_for "aip.io/classification" q.classification;
  phase = single phases;
  limit = limit;
  continue_token = if str_eq q.continue_token "" then none else some q.continue_token;
}

module _ {F : Type 0} (s : Server F) where
  list_with : ListQuery → List String → ListOptions → M Response
  list_with q phases options = do
    answer ← attempt (list_requests_m s options)
    pure (list_answer q phases answer)

  list_phases : HttpRequest (Unit {0}) → ListQuery → String ⊎ List String → M Response
  list_phases r q (inl bad) =
      fail_with 400 (sprintf "invalid phase %q: must be one of %s" (str bad ∷ str valid_text ∷ []))
  list_phases r q (inr phases) =
      on_option (limit_of s.parse_int q.limit)
        (fail 400 "invalid limit: must be a positive integer")
        (λ limit. list_with q phases (options_of r.namespace q phases limit))

  pub handle_list : HttpRequest (Unit {0}) → ListQuery → M Response
  handle_list r q =
      if s.auth_required && str_eq r.sub ""
      then fail 401 "caller identity required"
      else list_phases r q (requested_phases s.trim_space q.phase)
