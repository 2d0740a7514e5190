-- ===== src/Mobile.antt =====
-- The mobile application: apps/mobile/src.
pub mod ApplicationDetail
pub mod CareerProfiles
pub mod Client
pub mod Consulting
pub mod Files
pub mod Growth
pub mod Opportunities
pub mod OpportunityDetail
pub mod ReleaseGate
pub mod Submission
pub mod Tailoring
pub mod Task
pub mod TokenCache
