-- ===== src/Lib.antt =====
-- The agent control plane for Kubernetes: a verification library for its Go sources.
--
-- An agent that wants to act on a cluster files an AgentRequest. The reconciler in
-- internal/controller/agentrequest_controller.go drives each request through its phases: it checks
-- the GovernedResource that admitted the request, evaluates SafetyPolicies, waits for a human where
-- they ask for one, takes the OpsLock of the target (a coordination Lease), approves, watches the
-- execution, and writes an AuditRecord for each step. The evaluator in
-- internal/evaluation/evaluator.go decides on the policies by CEL expressions. The gateway in
-- cmd/gateway is the HTTP service before the cluster: it takes an agent's request, finds the
-- agent's registration and the GovernedResource of the operation, compares the agent's trust level
-- with it, creates the AgentRequest with annotations for the reconciler, and polls or streams the
-- outcome. It also takes the decisions and verdicts of reviewers and the agent's reports, and hands
-- credentials to the agents of approved requests; only the reconciler changes phases. The
-- controller in internal/controller/agenttrustprofile_controller.go sets an agent's trust level
-- from its verdicts and executions. internal/gc deletes old requests, internal/jwt/manager.go signs the
-- tokens of approved requests, and internal/credential/cache.go keeps the tokens of cloud services.
--
-- Files and sources
--   Prelude, Prelude/Tests, Prelude/Lists, Prelude/Order, Prelude/Chars: library names, Boolean tests,
--     lists over native numbers and association lists, the order of strings, texts as characters.
--   Effects: the errors of Go functions that call other systems, and actions, which extend the trace of
--     calls and may end in an error. Effects/Logic is a logic for actions: a predicate on each call and
--     the calls before it, with facts that pass from step to step. Effects/Retries is RetryOnConflict.
--   Api/Policy, Api/Request: the types of api/v1alpha1 (agentrequest, safetypolicy,
--     governedresource), with the fields that the code reads or writes; Api/Trust has the trust levels,
--     profiles and graduation policies. Api/Samples has test objects.
--     Api/Naming: naming.go, the names of an agent's objects, with Api/Naming/Labels.
--   Evaluation: Evaluate (`evaluate`, `eval_policies`, `eval_rules`, `rule_outcome`) and
--     evaluateCascade (`evaluate_cascade`, `cascade_targets`, `cascade_policies`, `cascade_rules`).
--     Evaluation/State has the variables that the loops update, Evaluation/Cel the CEL environment
--     (internal/evaluation/cel.go) as a parameter. Effects says what each rule demands, without the
--     loops' state; Strictest has the strictest of a list of demands; Loops relates the loops to
--     both; Order has permutations and additions; Outcome has the properties.
--   Controller: the reconciler. Types has leases, audit records and the calls to the
--     surroundings; Env the configuration and the answers of the cluster, the clock, the fetchers and
--     the Kubernetes libraries, each a function of all calls made before, so that other clients may
--     act in between; Monad its calls as actions.
--     Admission is checkGovernedResourceIntegrity, checkAgentTransitions and initializePhase; Pending
--     is reconcilePending; Decision is handleEvaluationResult, handleApprovalWait and
--     handleLockAcquisition; Lock is the lease part of the latter, generateLeaseName and releaseLock;
--     Running is reconcileApproved, reconcileExecuting and reconcileAwaitingVerdict; Audit is
--     emitAuditRecord, createAuditWithRetry and backfillCompletedAuditResult; Context is
--     fetchTargetContext and fetchContextFromProvider; Reconcile is Reconcile.
--   Controller/Safety has the predicate on the calls of the reconciler; the child modules Quiet, Safe,
--     First, Integrity, Judged and Acquire prove it for each step, and Controller/Rules draws the
--     readable rules from it, for a worker that reconciles a queue of names. Lock/Expiry, Lock/Release,
--     Audit/Bounds and Reconcile/Terminal have properties of single steps. Evaluation/Tests and
--     Controller/Tests apply the theorems to samples, and so do the other Tests modules.
--   Gateway: Roles is the role checks of cmd/gateway/oidc.go; Server the Server of cmd/gateway/server.go
--     with its calls and their answers; Match is matchGovernedResource and Gate is evaluateTrustGate of
--     cmd/gateway/governed_resource.go; Registrations is the cache of cmd/gateway/registration_watch.go
--     and validateOIDCIdentity. Names is the helpers for labels, names and classifications; Create is
--     handleCreateAgentRequest, from the body in Create/Body, by the checks of admission, to the creation
--     in Create/Filing and the wait in Wait, which is pollAgentRequestPhase and cmd/gateway/sse.go.
--     Credentials is cmd/gateway/agent_request_token_handlers.go; Review is
--     cmd/gateway/agent_request_review_handlers.go; Lifecycle is
--     cmd/gateway/agent_request_lifecycle_handlers.go, with its list in Listing. Service serves one HTTP
--     request on /agent-requests after another; each comes with its Caller, the subject, the groups and
--     the issuer that the middlewares put into the context of the HTTP request.
--     Match/Cached and Match/Best, Gate/Rules, Review/Answers, Registrations/Cached and
--     Registrations/Subjects, Names/Classes have properties of single parts. Admission says what makes a
--     request admissible, and Gateway/Safety what the handlers may call; Create/Safe, Create/Admitted,
--     Create/Identity, Gate/Quiet, Wait/Quiet, Credentials/Safe, Listing/Safe, Review/Safe and
--     Lifecycle/Safe prove it. Gateway/Rules and Rules/Admits draw the rules for any series of HTTP
--     requests.
--   Composed: the gateway and the reconciler together.
--   TrustProfile: the pure parts of internal/controller/agenttrustprofile_controller.go. Its calls are
--     in TrustProfile/Cluster, getOrBootstrapProfile in TrustProfile/Bootstrap and Reconcile in
--     TrustProfile/Reconcile. Levels, Monotone and Counts have the properties of the parts,
--     Reconcile/Demotion (with Bootstrap/Quiet) those of a series of reconciles; Reconcile/Measured
--     says which accuracy a demotion is judged by, and Reconcile/Justified what justifies a lower
--     level. Limits has the limits of accuracy and the grace period. The maxima of a graduation level are fields of
--     Api/Trust that the code does not read.
--   Accuracy: internal/controller/accuracy_controller.go, the counts of verdicts that a trust level is
--     drawn from; Accuracy/Counts says what is written over a series of reconciles.
--   Collection: internal/gc/ar_worker.go, config.go and the health check of manager.go; Safe says what is
--     deleted, Ends that the loops over pages end.
--   Jwt: internal/jwt/manager.go, with the round trip in Jwt/Roundtrip. TokenCache:
--     internal/credential/cache.go, with its properties in TokenCache/Fresh.
--
-- Bounds and numbers
--   Times and durations are nanoseconds over the natural numbers; a deadline is compared by moving
--   the subtraction to the other side. A lease's duration is an integer, since int32(seconds) can wrap;
--   `to_int32` writes the wrap out. The only counted loop is `for range 3` of createAuditWithRetry, of
--   fuel 3, as is emitTrustProfileAuditWithRetry; other loops are over lists. The loops of the
--   collector over pages of a list take fuel, one unit for each page; the API server's own count of what
--   is left to list is enough. int64 counters, and durations other than a lease's, are natural numbers.
--   float64 is a parameter with its operations. The loop of a poll runs over the ticks before its
--   context is done, and that of a stream over the events that the watch delivers; both numbers are
--   answers of the surroundings. The cache of globs is read as it is at each call, since other calls
--   share it.
--
-- Assumptions
--   Where a theorem has the hypothesis `Answers`, the API server answers a status patch with the
--   object of the same name and namespace, in the phase that was written. A duration that is zero or
--   negative in the configuration is 0 in `Env`. The Status of a condition is kept as whether it is
--   True. checkAgentTransitions reads through APIReader, which the manager always sets. Where a
--   theorem on the gateway asks for it, RetryOnConflict calls its function again only after a conflict,
--   and the cache of globs holds for each pattern what compiling it answers. Whether an Accept header
--   asks for events is a field of the HTTP request. JSON numbers and the parameters of a request are
--   kept as their text. The maps of Go are association lists with one entry for each key; a loop over a
--   map takes their order.
--
-- Not modelled
--   Logging, OpenTelemetry, the Prometheus registry and the set-up of the manager. The CEL library,
--   the Kubernetes client, RetryOnConflict, SHA-256, JSON and schema validation, globs, ed25519 and JWT,
--   singleflight, sorting and float64 are parameters. Of the gateway, the handlers of policies,
--   registrations, audit records and accuracy, the MCP proxy and the middlewares; the
--   GovernedResource, MCPServer and key controllers; the ticker of the collector, the retries of the
--   watch on registrations, the credential providers, the dashboard and the demos have no model here. A
--   cache of compiled globs, the cache of registrations and a token cache are modelled for one caller at
--   a time.
pub mod Prelude
pub mod Effects
pub mod Gateway
pub mod Collection
pub mod Jwt
pub mod TokenCache
pub mod TrustProfile
pub mod Accuracy
pub mod Api
pub mod Evaluation
pub mod Controller
pub mod Composed
