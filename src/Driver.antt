-- ===== src/Driver.antt =====
-- The driver of pkg/managerdriver, which synchronises the cluster with the resources of its store.
pub mod Debounce
pub mod Apply
pub mod Domains
pub mod Sync
