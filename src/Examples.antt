-- ===== src/Examples.antt =====
-- The theorems at concrete inputs: a database in memory, a feed, a pool, requests and settings.
mod Memory
mod Storing
mod Pools
mod Feeds
mod Requests
mod Settings
mod Running
mod Commands
mod Routes
mod Rows
mod Served
mod Slices
mod Clients
mod Windows
mod Generated
