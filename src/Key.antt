-- ===== src/Key.antt =====
-- Secrets of cetmix_tower_server/models/cx_tower_key.py.
pub mod Scan
pub mod Extraction
pub mod RoundTrip
pub mod Resolve
pub mod Spoiler
pub mod Masking
pub mod Escapes
pub mod Pieces
pub mod Isolation
