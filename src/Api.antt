-- ===== src/Api.antt =====
-- The handlers of the API, one module for each controller of murano/api/v1, and the step relation
-- of their calls.
pub mod Sessions
pub mod Environments
pub mod Actions
pub mod Services
pub mod Applications
pub mod Templates
pub mod Invariant
pub mod Reach
pub mod Lock
