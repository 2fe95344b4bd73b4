-- ===== src/Tests.antt =====
-- The theorems at concrete inputs, with the data that they share.
mod Queue
mod Records
mod Alerts
mod Hub
mod Access
mod Devices
mod Worker
mod Assets
mod Sessions
mod Workspaces
mod Configs
mod Tunnels
