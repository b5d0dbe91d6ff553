-- ===== src/Tests.antt =====
-- Runs at concrete inputs, and the theorems applied there.
mod BioTests
mod ManagerTests
mod LooperTests
mod ServerTests
mod RamdiskTests
mod ListTests
mod WaitTests
mod EpollTests
mod MainTests
mod KernelTests
