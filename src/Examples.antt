-- ===== src/Examples.antt =====
-- Examples: the theorems at concrete inputs, with a toy chess library and Redis in memory.
mod Chess
mod Moves
mod Histories
mod Channels
mod Presets
mod Overflow
mod Repository
mod Service
mod Pool
mod Material
mod Openings
mod Rooms
mod SeeMore
