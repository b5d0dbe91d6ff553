-- ===== src/Ramdisk.antt =====
-- The block devices of ramdisk-lab/, which keep their sectors in an area of the kernel's memory.
pub mod Transfer
pub mod SampleBlk
pub mod MkReq
pub mod Req
pub mod ReqModule
