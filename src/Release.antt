-- ===== src/Release.antt =====
-- packages/release: the publication of one npm package from a main-branch commit.
pub mod Version
pub mod Intent
pub mod Npm
pub mod Plan
mod Samples
pub mod Supersession
pub mod CanaryDecision
pub mod PublicationPlan
pub mod Record
pub mod Catalog
pub mod Gate
pub mod Effects
pub mod Store
pub mod Publication
pub mod Engine
