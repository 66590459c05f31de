-- ===== src/Wireguard.antt =====
-- WireGuard on the server: what `wg` prints, free addresses, a session's tunnel and the reconciling
-- loop.
pub mod Engine
pub mod Effects
pub mod Interface
pub mod Dump
pub mod Addresses
pub mod Preparation
pub mod Reconciling
