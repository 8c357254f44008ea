-- ===== src/Composed/Tests.antt =====
-- The gateway creates a request for an agent that may not execute; the reconciler handles it.
use aip_k8s.Prelude.{[], ◌∷◌}
use aip_k8s.Effects.Logic.{Hist}
use aip_k8s.Api.Request.{Phase}
use aip_k8s.Api.Samples.{sample_request}
use aip_k8s.Gateway.Samples.{by}
use aip_k8s.Gateway.Safety.{RetriesConflicts, last}
use aip_k8s.Gateway.Service.{run, create}
use aip_k8s.Gateway.Create.Samples.{creating_server, sample_body}
use aip_k8s.Controller.Env.{Env}
use aip_k8s.Controller.Admission.Safe.{Answers}
use aip_k8s.Controller.Samples.{cluster, queue, cluster-Answers}
use aip_k8s.Composed.{Composes, run-Composes}

creating-RetriesConflicts : RetriesConflicts creating_server
creating-RetriesConflicts m t = last t

abbrev controlled : Env
controlled = cluster (sample_request Phase.unset)

controlled-Answers : Answers controlled
controlled-Answers = cluster-Answers (sample_request Phase.unset)

run-Composes_example :
    Hist
      (Composes creating_server controlled controlled-Answers queue)
      (run creating_server (create (by "agent" sample_body) ∷ []) [])
run-Composes_example =
    run-Composes creating_server controlled controlled-Answers queue creating-RetriesConflicts
      (λ t. tt) (create (by "agent" sample_body) ∷ [])
