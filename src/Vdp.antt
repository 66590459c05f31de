-- ===== src/Vdp.antt =====
-- The VPN description: providers, spaces and gates (lib/vdpobject.py, lib/provider.py,
-- lib/space.py, lib/gate.py), and the table that holds them (lib/vdp.py).
pub mod Objects
pub mod Table
pub mod Importing
pub mod Saving
pub mod Refreshing
