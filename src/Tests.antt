-- ===== src/Tests.antt =====
-- Concrete runs of the model, and the theorems at inputs that meet their hypotheses.
mod Paths
mod Links
mod Scopes
mod Sources
mod Indexes
mod Policies
mod Notes
mod Views
mod Sections
mod Fields
mod Blocks
mod Upgrades
mod Eligibility
