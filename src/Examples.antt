-- ===== src/Examples.antt =====
-- Concrete users, contests, problems and submissions, and the theorems applied to them.
pub mod Data
pub mod Contests
pub mod Submissions
pub mod Grading
pub mod Running
pub mod Queries
pub mod Waiting
pub mod Accounts
pub mod Archives
pub mod Tables
