-- ===== src/Input/Mirror.antt =====
-- What the game has been told of controls and keys is what the input structure of
-- asm2_127/src/input.c holds.
mod View
mod Release
mod Devices
mod Fingers
pub mod Events
pub mod Shutdown
pub use View.{game_hid, game_key, Mirror}
