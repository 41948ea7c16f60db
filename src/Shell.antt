-- ===== src/Shell.antt =====
-- Shell commands of cetmix_tower_server/models/cx_tower_server.py: what is sent, and what comes back.
pub mod Command
pub mod Outcome
