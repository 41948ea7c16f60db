-- ===== src/Yaml.antt =====
-- Export and import of records as dictionaries: cetmix_tower_yaml/models/cx_tower_yaml_mixin.py.
pub mod Values
pub mod Relations
pub mod RoundTrip
