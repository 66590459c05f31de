-- ===== src/Client.antt =====
-- The client's processes (client/).
pub mod Connections
pub mod Http
pub mod Auto
pub mod Tunnel
pub mod Proxy
