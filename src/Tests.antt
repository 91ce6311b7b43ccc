-- ===== src/Tests.antt =====
-- The theorems applied to concrete inputs.
mod Encodings
mod Keys
mod Waits
mod Store
mod Transactions
mod Latching
mod Union
mod Collecting
mod Regions
mod Secondaries
