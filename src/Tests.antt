-- ===== src/Tests.antt =====
-- The theorems applied to concrete states of the program.
mod Disks
mod Adders
mod Calls
mod Files
mod Numbers
mod Queues
mod Shops
mod Swaps
mod Tasks
mod Turns
