-- ===== src/Iam.antt =====
-- What `redshift_connector.connect` does before it makes a Connection: the properties that the caller
-- gives are checked, and temporary credentials are fetched where IAM or a plugin is asked for.
pub mod Serverless
pub mod Properties
pub mod Merge
pub mod Login
pub mod AuthProperties
pub mod Plugins
pub mod CacheKey
pub mod ClusterCredentials
pub mod Connect
pub mod Reads
pub mod Secured
pub mod Channel
pub mod Obtained
pub mod Fresh
pub mod SameKey
pub mod Reuse
pub mod Saml
