-- ===== src/Binder.antt =====
-- The user-space binder library of binder/ and the programs on top of it.
pub mod Types
pub mod Bio
pub mod Driver
pub mod Device
pub mod Looper
