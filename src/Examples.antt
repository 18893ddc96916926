-- ===== src/Examples.antt =====
-- The theorems at work in one small world: an ore mine, three ships and an open lot.
pub mod World
pub mod Holds
pub mod Deals
pub mod Auctions
pub mod Prices
pub mod Sequence
pub mod Hack
pub mod Routes
pub mod Standings
pub mod Factories
pub mod Policies
pub mod Rents
