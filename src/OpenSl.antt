-- ===== src/OpenSl.antt =====
-- asm2_127/src/opensl_bridge.c: the OpenSL ES audio player that the game streams PCM buffers to.
pub mod State
pub mod Queue
pub mod Enqueue
pub mod Play
pub mod Stream
pub mod Pull
pub mod Api
pub mod Pipe
pub mod Refine
pub mod Quiet
pub mod Change
pub mod History
pub mod Fill
pub mod Serving
pub mod Worker
pub mod Device
pub mod Object
pub mod Release
pub mod Create
mod Tests
