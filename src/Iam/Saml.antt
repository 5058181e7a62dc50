-- ===== src/Iam/Saml.antt =====
-- The provider of credentials that a SAML assertion gives: Assertion reads the assertion, Provider asks for
-- it and keeps the credentials; Roles, Claims and Cached are about them.
pub mod Assertion
pub mod Provider
pub mod Roles
pub mod Claims
pub mod Refresh
pub mod Cached
