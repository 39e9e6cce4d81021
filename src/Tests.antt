-- ===== src/Tests.antt =====
-- Tests on concrete rows, and the theorems applied to them.
mod Data
mod QueueRuns
mod Policies
mod Recordings
mod Requests
mod Ingesting
mod Dispatching
mod Cycles
mod Providers
mod Scheduling
mod Answers
mod Runs
mod Migrating
