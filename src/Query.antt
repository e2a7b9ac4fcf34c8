-- ===== src/Query.antt =====
-- The queries of the db package: db/querybuilder.go and the functions that use it.
pub mod Associations
pub mod Format
pub mod Builder
pub mod Slots
pub mod Placeholders
pub mod Steps
pub mod Values
pub mod SubmissionQuery
pub mod SubmissionPlaceholders
pub mod Restricted
pub mod Updates
pub mod Filters
pub mod ClientPlaceholders
