-- ===== src/Deployment.antt =====
-- internal/deployment: the control plane's store of services, deployments, actions and cron runs.
pub mod Model
pub mod Spec
pub mod Settings
pub mod Jobs
pub mod Outside
pub mod Templates
pub mod Enqueue
pub mod Report
pub mod Cron
pub mod Actions
pub mod Claim
pub mod Invariant
pub mod Variables
pub mod Buckets
pub mod Workspaces
pub mod Canvas
pub mod Creation
pub mod Databases
pub mod Volumes
pub mod Networking
pub mod Histories
