-- ===== src/Template.antt =====
-- Server templates: the configuration variables in cetmix_tower_server/models/cx_tower_server_template.py.
pub mod Configuration
pub mod Required
pub mod Merge
pub mod Creation
