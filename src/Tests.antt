-- ===== src/Tests.antt =====
-- Concrete inputs for the theorems of the library.
mod Text
mod Pasteboard
mod Flash
mod Radio
mod Names
mod Bridge
mod Proxy
mod Tasks
mod Portal
mod System
