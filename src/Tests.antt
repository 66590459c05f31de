-- ===== src/Tests.antt =====
-- Concrete inputs, tests of the definitions on them, and each theorem at an input.
mod Samples
mod Wireguard
mod Server
mod Client
mod Mail
mod Auto
mod Requests
mod Sessions
mod Database
mod Importing
mod Tunnel
mod Wallet
mod Proxy
