-- ===== src/Tests.antt =====
-- The theorems at concrete inputs, and small runs.
mod Values
mod Stores
mod Plans
mod Logs
mod Names
mod Strata
mod Entries
mod Functions
