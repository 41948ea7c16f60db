-- ===== src/Webhook.antt =====
-- Incoming requests of cetmix_tower_webhook: the address check, the authenticator and the controller.
pub mod Address
pub mod Allowlist
pub mod Evaluation
pub mod Request
pub mod Gate
