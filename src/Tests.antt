-- ===== src/Tests.antt =====
-- The theorems at concrete inputs: sample configurations, and a run of each component.
mod Samples
mod Keys
mod Routes
mod Tries
mod Entries
mod Gates
mod Addresses
mod Jobs
mod Ledgers
mod Projections
mod StateFiles
mod Names
mod Logins
mod Batches
