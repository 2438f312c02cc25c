-- ===== src/Wifi.antt =====
-- main/wifi_manager.c: scanning, the choice of candidates, and the connection state machine.
pub mod State
pub mod Flash
pub mod Scan
pub mod ScanLaws
pub mod Candidates
pub mod Ranking
pub mod Machine
pub mod Steady
pub mod Invariant
pub mod Cycle
pub mod Recovery
pub mod Inbox
pub mod Radio
pub mod RadioLaws
pub mod Netif
