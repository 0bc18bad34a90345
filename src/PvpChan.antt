-- ===== src/PvpChan.antt =====
-- The PvP channels: internal/pvpchan. A channel is a document under its code, with sets of its
-- participants and of the rooms that follow it; an index lists the waiting channels.
pub mod Store
pub mod Make
pub mod Join
pub mod Lists
pub mod Keeps
pub mod Reserve
pub mod Capacity
pub mod Waiting
