-- ===== src/Vault.antt =====
-- The secret vault: cetmix_tower_server/models/cx_tower_vault_mixin.py and cx_tower_vault.py.
pub mod Rows
pub mod Effect
pub mod Plan
pub mod Steps
pub mod Refinement
pub mod Values
pub mod Unique
pub mod Invariant
pub mod NewKeys
pub mod History
pub mod Create
pub mod Extraction
pub mod Creation
pub mod Created
