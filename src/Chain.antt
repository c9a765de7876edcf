-- ===== src/Chain.antt =====
-- The soulchain of osp-core: its records (schemas/), the check of one record (record.ts), the
-- incremental verifier (verify-chain.ts) and what a verified chain is.
pub mod Record
pub mod Residency
pub mod Schema
pub mod Signed
pub mod Presence
pub mod Checks
pub mod History
pub mod Verifier
pub mod Guarantees
pub mod Samples
pub mod Creation
