-- ===== src/Input.antt =====
-- asm2_127/src/input.c: SDL events become the callbacks of the game's Android input interface.
pub mod State
pub mod Hid
pub mod Touch
pub mod Pump
pub mod Mirror
pub mod Persist
mod Tests
