-- ===== src/Context/Ownership.antt =====
-- Who holds what the TSS handed out, in src/adapters/tpm2_esys/context.
pub mod Steps
pub mod Loading
pub mod Creation
