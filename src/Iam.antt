-- ===== src/Iam.antt =====
-- The identity context, backend/app/modules/iam: users, and the rotation of refresh tokens.
pub mod Domain
pub mod Tokens
pub mod SingleUse
pub mod Families
pub mod RateLimit
pub mod Buckets
pub mod Admission
pub mod Windows
pub mod Accounts
pub mod Credentials
pub mod Access
