-- ===== src/Schedule.antt =====
-- Scheduled tasks of cetmix_tower_server/models/cx_tower_scheduled_task.py.
pub mod Tasks
pub mod Reservation
