-- ===== src/Examples.antt =====
-- The theorems applied to one small database.
mod Database
mod Lifecycle
mod Leases
mod Transitions
mod People
mod Fleet
mod Manager
mod Texts
mod Questions
