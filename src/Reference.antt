-- ===== src/Reference.antt =====
-- References of records: cetmix_tower_server/models/cx_tower_reference_mixin.py.
pub mod Generate
pub mod Free
pub mod Laws
pub mod Records
pub mod Batch
