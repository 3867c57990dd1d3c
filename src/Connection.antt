-- ===== src/Connection.antt =====
-- How a module becomes a peer of the engine, and stays one, from src/auth.rs, src/module_registry.rs,
-- src/removed_modules.rs, src/config.rs and the handshake of src/main.rs.
pub mod Sessions
pub mod Tokens
pub mod PinGate
pub mod Files
pub mod Registry
pub mod Removed
pub mod Placement
pub mod Hub
pub mod Handshake
pub mod Probe
