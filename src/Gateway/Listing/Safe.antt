-- ===== src/Gateway/Listing/Safe.antt =====
-- The list of requests only reads.
use aip_k8s.Prelude.{String, ◌&&◌, ◌⊎◌, inl, inr, List, str_eq}
use aip_k8s.Effects.Logic.{Runs-attempt_invoke, Runs-bind, Runs-if, Runs-option}
use aip_k8s.Gateway.Server.{Server, Caller, HttpRequest, ListOptions, list_requests}
use aip_k8s.Gateway.Listing.{ListQuery, limit_of, list_with, list_phases, handle_list}
use aip_k8s.Gateway.Safety.{Safe, answer-Safe, fail-Safe}

module _ {F : Type 0} (s : Server F) (asks : Caller → Type 0) where
  list_with-Safe :
      (q : ListQuery) (phases : List String) (options : ListOptions)
      → Safe s asks (list_with s q phases options)
  unfolding list_with
  list_with-Safe q phases options =
      Runs-bind
        (Runs-attempt_invoke {Q = λ _ _. Unit} (list_requests options) _ (λ t e. tt) (λ t e. tt))
        (λ answer. answer-Safe s asks _)

  list_phases-Safe :
      (r : HttpRequest (Unit {0})) (q : ListQuery) (asked : String ⊎ List String)
      → Safe s asks (list_phases s r q asked)
  unfolding list_phases
  list_phases-Safe r q (inl bad) = fail-Safe s asks _ _
  list_phases-Safe r q (inr phases) =
      Runs-option (limit_of s.parse_int q.limit) (λ e. fail-Safe s asks _ _)
        (λ limit e. list_with-Safe q phases _)

  pub handle_list-Safe :
      (r : HttpRequest (Unit {0})) (q : ListQuery) → Safe s asks (handle_list s r q)
  unfolding handle_list
  handle_list-Safe r q =
      Runs-if (s.auth_required && str_eq r.sub "") (λ e. fail-Safe s asks _ _)
        (λ e. list_phases-Safe r q _)
