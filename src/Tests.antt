-- ===== src/Tests.antt =====
-- The theorems at concrete inputs.
mod Samples
mod Policies
mod Limiting
mod Records
mod Identities
mod Requests
mod Flights
mod Traffics
mod Starts
mod Runnings
mod Upstreams
