-- ===== src/Session.antt =====
-- A session: what a client buys or is given (lib/session.py), and the table of sessions.
pub mod Data
pub mod World
pub mod Contributions
pub mod Store
pub mod Activation
pub mod Payments
pub mod Loading
pub mod Creation
pub mod Reuse
pub mod Invoice
