-- ===== src/Controller.antt =====
-- internal/controller: the controller that turns the custom resources of the nodes into jobs.
pub mod Objects
pub mod Jobs
pub mod Entries
pub mod Cluster
pub mod Reconcile
pub mod Finish
pub mod Watch
pub mod Command
pub mod Laws
