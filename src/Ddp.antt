-- ===== src/Ddp.antt =====
-- src/liburdma/interface.c: the segments that a queue pair receives, by kind.
pub mod Consistent
pub mod ConsistentReads
pub mod Context
pub mod Untagged
pub mod Reads
pub mod Failure
pub mod Placement
pub mod Confined
pub mod Echo
pub mod Admission
pub mod Response
pub mod Answer
pub mod Buffers
