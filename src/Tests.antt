-- ===== src/Tests.antt =====
-- The theorems at concrete inputs, and runs of the definitions.
pub mod Data
mod Wire
mod Query
mod Columns
mod Auth
mod Messages
mod Fetch
mod Copy
mod Execute
mod Args
mod Session
mod Interval
mod Iam
mod Saml
