-- ===== src/Controller/Laws.antt =====
-- internal/controller: what the controller makes of resources, jobs and pods.
pub mod Failures
pub mod Cleanup
pub mod Pods
