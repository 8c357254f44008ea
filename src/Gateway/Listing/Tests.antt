-- ===== src/Gateway/Listing/Tests.antt =====
-- The parameters of a query, read.
use aip_k8s.Prelude.{◌≡◌, refl, String, inl, inr, Option, none, some, List, [], ◌∷◌, map}
use aip_k8s.Api.Request.{Phase, AgentRequest}
use aip_k8s.Api.Samples.{sample_request}
use aip_k8s.Controller.Types.{ℤ, negsuc}
use aip_k8s.Gateway.Listing.{
  requested_phases, parsed, split, with_char, in_phases, filtered, limit_of, positive,
}

-- Empty parts are skipped, and the first phase that is not valid is reported.
phases_read : requested_phases (λ p. p) "Pending,,Denied" ≡ inr ("Pending" ∷ "Denied" ∷ [])
unfolding requested_phases parsed split with_char
phases_read = refl

phase_refused : requested_phases (λ p. p) "Pending,Done,Nope" ≡ inl "Done"
unfolding requested_phases parsed split with_char
phase_refused = refl

abbrev minus_one : String → Option ℤ
minus_one text = some (negsuc 0)

abbrev nothing : String → Option ℤ
nothing text = none

no_limit : limit_of nothing "" ≡ some none
unfolding limit_of positive
no_limit = refl

limit_refused : limit_of minus_one "-1" ≡ none
unfolding limit_of positive
limit_refused = refl

abbrev requests : List AgentRequest
requests = map sample_request (Phase.pending ∷ Phase.denied ∷ Phase.failed ∷ [])

-- Two phases are looked for in the items.
items_kept :
    filtered ("Pending" ∷ "Failed" ∷ []) requests
    ≡ map sample_request (Phase.pending ∷ Phase.failed ∷ [])
unfolding filtered in_phases
items_kept = refl

-- A single phase is not: the API server has selected by it.
items_trusted : filtered ("Pending" ∷ []) requests ≡ requests
unfolding filtered in_phases
items_trusted = refl
