-- ===== src/Tests.antt =====
-- The theorems at concrete requests, and runs of the parsers and builders.
pub mod Data
pub mod Reading
pub mod Statements
pub mod Preferring
pub mod Reloading
pub mod Requests
pub mod Naming
pub mod Granting
pub mod Writing
pub mod Executing
pub mod Tokens
