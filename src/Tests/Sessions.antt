-- ===== src/Tests/Sessions.antt =====
-- The theorems about lib/session.py and lib/sessions.py at concrete sessions.
mod Payments
mod Lifecycle
