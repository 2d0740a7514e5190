-- ===== src/Search.antt =====
-- What the search screens keep about results: apps/web/app/lib/searchResultState.ts.
pub mod Url
pub mod Tokens
pub mod Query
pub mod Sites
pub mod Tab
pub mod Suppression
