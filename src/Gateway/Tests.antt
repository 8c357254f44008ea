-- ===== src/Gateway/Tests.antt =====
-- Runs of the gateway on samples, with one reviewer and one agent, and each theorem at such a run.
use aip_k8s.Prelude.{ℕ, String, Bool, ◌≡◌, refl, Option, none, some, List, [], ◌∷◌, str_eq}
use aip_k8s.Api.Policy.{GovernedResource}
use aip_k8s.Api.Request.{Phase, Decision}
use aip_k8s.Api.Samples.{sample_request}
use aip_k8s.Effects.Logic.{Hist}
use aip_k8s.Gateway.Match.{Cache, match_governed_resource}
use aip_k8s.Gateway.Match.Cached.{best_resource, IsCacheOf, match_governed_resource-best_resource}
use aip_k8s.Gateway.Match.Best.{IsMostSpecific, match_governed_resource-IsMostSpecific}
use aip_k8s.Gateway.Review.{VerdictBody, handle_human_decision}
use aip_k8s.Gateway.Review.Answers.{IsAnswered, handle_human_decision-IsAnswered}
use aip_k8s.Gateway.Service.{Asks, run, approve, verdict, create, token}
use aip_k8s.Gateway.Create.Samples.{creating_server, sample_body}
use aip_k8s.Gateway.Rules.Admits.{Admits, Serves, run-Admits, run-Serves}
use aip_k8s.Gateway.Rules.{
  Reviews, GradesOnce, KeepsPhase, run-Reviews, run-GradesOnce, run-KeepsPhase,
}
use aip_k8s.Gateway.Safety.{RetriesConflicts, last}
use aip_k8s.Gateway.Samples.{sample_server, by, pending_server, sample_resource}
use aip_k8s.Gateway.Server.{Server, Call}

pending-RetriesConflicts : RetriesConflicts pending_server
pending-RetriesConflicts m t = last t

-- A reviewer's decision, and the agent's attempt at one.
abbrev decision_trace : List Call
decision_trace = run pending_server (approve (by "ann" "checked") ∷ approve (by "agent" "") ∷ []) []

run-Reviews_example :
    Hist
      (Reviews pending_server (Asks (approve (by "ann" "checked") ∷ approve (by "agent" "") ∷ [])))
      decision_trace
run-Reviews_example =
    run-Reviews pending_server pending-RetriesConflicts (λ t. tt)
      (approve (by "ann" "checked") ∷ approve (by "agent" "") ∷ [])

run-KeepsPhase_example : Hist KeepsPhase decision_trace
run-KeepsPhase_example =
    run-KeepsPhase pending_server pending-RetriesConflicts (λ t. tt)
      (approve (by "ann" "checked") ∷ approve (by "agent" "") ∷ [])

abbrev awaiting_server : Server ℕ
awaiting_server = sample_server (sample_request Phase.awaiting_verdict)

awaiting-RetriesConflicts : RetriesConflicts awaiting_server
awaiting-RetriesConflicts m t = last t

abbrev sample_verdict : VerdictBody
sample_verdict = record { verdict = "partial"; reason_code = "bad_timing"; note = "" }

run-GradesOnce_example :
    Hist
      (GradesOnce awaiting_server (Asks (verdict (by "ann" sample_verdict) ∷ [])))
      (run awaiting_server (verdict (by "ann" sample_verdict) ∷ []) [])
run-GradesOnce_example =
    run-GradesOnce awaiting_server awaiting-RetriesConflicts (λ t. tt)
      (verdict (by "ann" sample_verdict) ∷ [])

handle_human_decision-IsAnswered_example :
    IsAnswered pending_server
      (handle_human_decision pending_server Decision.approved (by "ann" "checked") [])
handle_human_decision-IsAnswered_example =
    handle_human_decision-IsAnswered pending_server Decision.approved (by "ann" "checked") [] tt

-- Globs are compared with the URI here.
abbrev sample_compile : String → Option (String → Bool)
sample_compile pattern = some (str_eq pattern)

abbrev sample_resources : List GovernedResource
sample_resources = sample_resource "b" "k8s://x" ∷ sample_resource "a" "k8s://x" ∷ []

abbrev sample_cache : Cache
sample_cache = ("k8s://x", str_eq "k8s://x") ∷ []

match_governed_resource-IsMostSpecific_example :
    IsMostSpecific sample_compile "k8s://x" "scale" sample_resources
      (match_governed_resource sample_compile sample_resources "k8s://x" "scale" sample_cache).0
    × IsCacheOf sample_compile
        (match_governed_resource sample_compile sample_resources "k8s://x" "scale" sample_cache).1
match_governed_resource-IsMostSpecific_example =
    match_governed_resource-IsMostSpecific sample_compile "k8s://x" "scale" sample_resources
      sample_cache (refl, tt)

match_governed_resource-best_resource_example :
    ((match_governed_resource sample_compile sample_resources "k8s://x" "scale" sample_cache).0
      ≡ best_resource sample_compile "k8s://x" "scale" sample_resources none)
    × IsCacheOf sample_compile
        (match_governed_resource sample_compile sample_resources "k8s://x" "scale" sample_cache).1
match_governed_resource-best_resource_example =
    match_governed_resource-best_resource sample_compile "k8s://x" "scale" sample_resources
      sample_cache (refl, tt)

creating-RetriesConflicts : RetriesConflicts creating_server
creating-RetriesConflicts m t = last t

run-Admits_example :
    Hist
      (Admits creating_server (Asks (create (by "agent" sample_body) ∷ [])))
      (run creating_server (create (by "agent" sample_body) ∷ []) [])
run-Admits_example =
    run-Admits creating_server creating-RetriesConflicts (λ t. tt)
      (create (by "agent" sample_body) ∷ [])

run-Serves_example :
    Hist
      (Serves creating_server
        (Asks (create (by "agent" sample_body) ∷ token (by "agent" "git") ∷ [])))
      (run creating_server (create (by "agent" sample_body) ∷ token (by "agent" "git") ∷ []) [])
run-Serves_example =
    run-Serves creating_server creating-RetriesConflicts (λ t. tt)
      (create (by "agent" sample_body) ∷ token (by "agent" "git") ∷ [])
