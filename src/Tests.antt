-- ===== src/Tests.antt =====
-- Concrete inputs, and the theorems at them.
mod Data
mod Registration
mod Parts
mod Roundtrip
mod Topologies
mod Baselines
mod Diffs
mod Runs
mod Supports
mod Memberships
mod Gates
mod Probes
mod Reports
