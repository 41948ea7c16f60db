-- ===== src/Engine.antt =====
-- The flight plan engine of cetmix_tower_server/models: plans, their lines and logs.
pub mod Records
pub mod Store
pub mod Choice
pub mod Run
pub mod Flow
pub mod Ensures
pub mod LineOrder
pub mod Settled
pub mod NextLine
pub mod Progress
pub mod Start
pub mod Unlogged
pub mod Begin
pub mod LastLine
pub mod Endings
pub mod Skips
pub mod Nesting
pub mod Cycles
pub mod Acyclic
pub mod SharedPlan
pub mod Stop
pub mod StopPlan
