-- ===== src/Samples.antt =====
-- Concrete rows, calls and answers, at which the theorems are applied.
pub mod Database
pub mod Rows
mod Destruction
mod Runs
mod Sessions
mod Models
mod Methods
mod Templates
mod Policies
mod Hierarchies
mod Usage
mod Patches
mod Packages
mod Merges
