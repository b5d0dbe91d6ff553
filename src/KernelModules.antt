-- ===== src/KernelModules.antt =====
-- The kernel modules that stand alone: what each takes from the kernel at its start and gives back at
-- its exit, and what its files and timers do.
pub mod Kset
pub mod Kobjects
pub mod Devices
pub mod CharDevice
pub mod DebugFs
pub mod TracePoint
pub mod SeqFile
pub mod TraceTimer
use linux_labs.Prelude.{List}
use linux_labs.Resources.{Event, Rv}

-- The result of a module's start, and what it took and gave back.
pub record Loaded : Type 0 where
  pub rv : Rv
  pub events : List Event
