-- ===== src/Gateway.antt =====
-- cmd/gateway: the HTTP service between the agents, the reviewers and the cluster.
pub mod Names
pub mod Roles
pub mod Registrations
pub mod Match
pub mod Server
pub mod Gate
pub mod Review
pub mod Admission
pub mod Safety
pub mod Lifecycle
pub mod Listing
pub mod Wait
pub mod Credentials
pub mod Create
pub mod Service
pub mod Rules
pub mod Samples
mod Tests
