-- ===== src/Services.antt =====
-- src/service/ and src/app/: the actors that take requests, and the program that sends them.
pub mod Cmd
pub mod Cli
pub mod Ipc
pub mod Wifi
pub mod Monitor
pub mod Bridge
pub mod Snapshot
