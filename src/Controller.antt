-- ===== src/Controller.antt =====
-- internal/controller/agentrequest_controller.go: the reconciler of AgentRequests.
pub mod Types
pub mod Env
pub mod Monad
pub mod Audit
pub mod Lock
pub mod Safety
pub mod Quiet
pub mod Admission
pub mod Decision
pub mod Context
pub mod Pending
pub mod Running
pub mod Reconcile
pub mod Rules
pub mod Samples
pub mod Tests
