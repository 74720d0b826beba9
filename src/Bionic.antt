-- ===== src/Bionic.antt =====
-- asm2_127/src/bionic_compat.c: Android's C library for the game, on the host's.
pub mod Paths
pub mod Translate
pub mod Files
pub mod Chain
pub mod Close
pub mod Streams
pub mod Lifetime
pub mod Stdio
pub mod Refused
pub mod Abi
pub mod Signals
pub mod Ctype
pub mod Calls
mod Tests
