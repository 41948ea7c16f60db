-- ===== src/Variable.antt =====
-- Variables and their values: cetmix_tower_server/models/cx_tower_variable_mixin.py.
pub mod Resolve
pub mod Single
pub mod Recursion
