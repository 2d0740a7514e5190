-- ===== src/Web.antt =====
-- The web application: apps/web.
pub mod Gateway
pub mod Chips
pub mod Documents
pub mod ErrorReports
pub mod Onboarding
pub mod Salary
pub mod MobileRelease
pub mod Proxy
pub mod Board
