-- ===== src/Tests.antt =====
-- Runs of the model on a small host and a small cluster, and the theorems applied there.
mod Host
mod Kubernetes
mod Network
mod Admission
mod Held
mod Ledger
mod Client
mod Machines
mod Creation
mod Clusters
mod Secrets
mod Lifetime
mod Utils
mod Mock
mod Domains
mod Startup
mod Observed
