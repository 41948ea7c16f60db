-- ===== src/Examples.antt =====
-- Concrete inputs of the properties.
mod Plans
mod Secrets
mod Hooks
mod Tasks
mod Shells
mod Nested
mod Remotes
mod Vaults
mod References
mod Variables
mod Templates
mod Exports
