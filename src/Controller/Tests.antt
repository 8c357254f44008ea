-- ===== src/Controller/Tests.antt =====
-- Runs of the reconciler on a small cluster.
use aip_k8s.Prelude.{none, []}
use aip_k8s.Api.Request.{unset, pending, denied}
use aip_k8s.Api.Samples.{sample_request}
use aip_k8s.Controller.Types.{AuditRecord}
use aip_k8s.Controller.Env.{Env}
use aip_k8s.Effects.Logic.{Hist}
use aip_k8s.Controller.Lock.{release_lock}
use aip_k8s.Controller.Lock.Release.{DeletesOwn, release_lock-DeletesOwn}
use aip_k8s.Controller.Rules.{
  run, OnStatus, OnLease, FollowsDiagram, GatesTrust, LocksFirst, AsksFirst, RespectsLease,
  run-FollowsDiagram, run-LocksFirst, run-AsksFirst, run-GatesTrust, run-RespectsLease,
}
use aip_k8s.Controller.Samples.{cluster, queue, cluster-Answers}

abbrev waiting : Env
waiting = cluster (sample_request pending)

abbrev new : Env
new = cluster (sample_request unset)

abbrev ended : Env
ended = cluster (sample_request denied)

run-FollowsDiagram_example : Hist (OnStatus FollowsDiagram) (run waiting queue [])
run-FollowsDiagram_example =
    run-FollowsDiagram waiting (cluster-Answers (sample_request pending)) queue

run-LocksFirst_example : Hist (OnStatus (LocksFirst waiting)) (run waiting queue [])
run-LocksFirst_example = run-LocksFirst waiting (cluster-Answers (sample_request pending)) queue

run-AsksFirst_example : Hist (OnStatus (AsksFirst waiting)) (run waiting queue [])
run-AsksFirst_example = run-AsksFirst waiting (cluster-Answers (sample_request pending)) queue

run-GatesTrust_example : Hist (OnStatus GatesTrust) (run new queue [])
run-GatesTrust_example = run-GatesTrust new (cluster-Answers (sample_request unset)) queue

run-RespectsLease_example : Hist (OnLease (RespectsLease waiting)) (run waiting queue [])
run-RespectsLease_example =
    run-RespectsLease waiting (cluster-Answers (sample_request pending)) queue

release_lock-DeletesOwn_example :
    Hist
      (DeletesOwn waiting (sample_request pending))
      (release_lock waiting (sample_request pending) []).1
release_lock-DeletesOwn_example = release_lock-DeletesOwn waiting (sample_request pending)

abbrev sample_audit : AuditRecord
sample_audit = record {
  name = "audit";
  namespace = "default";
  labels = [];
  owners = [];
  timestamp = 0;
  agent_identity = "agent";
  agent_request_ref = "scale-api";
  event = "request.denied";
  action = "scale";
  target_uri = "k8s://prod/default/deployment/api";
  reason = "load";
  policy_evaluations = [];
  phase_transition = none;
  annotations = [];
  details = none;
}
