-- ===== src/Examples.antt =====
-- Concrete inputs of the program's parts: an API server in memory, bundles, Jobs and a registry, and
-- the theorems applied to them.
mod Server
mod Values
mod Registry
mod Converge
mod DeepCopies
mod Jobs
mod Deployed
mod Init
mod Reconciler
mod Endings
mod Caching
mod Finalizers
mod Retries
mod Runs
mod Launches
mod Command
mod Panics
