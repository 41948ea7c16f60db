-- ===== src/Git.antt =====
-- Git remotes of cetmix_tower_git/models/cx_tower_git_remote.py.
pub mod Remote
pub mod Heads
