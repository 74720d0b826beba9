-- ===== src/Jni.antt =====
-- asm2_127/src/jni_bridge.c: the bridge between the game's native code and Java. Texts of Java
-- strings; handles for classes, objects, strings, ids, arrays and bundles; calls and fields.
pub mod Text
pub mod Codec
pub mod State
pub mod Handles
pub mod Intern
pub mod Throw
pub mod Arrays
pub mod Strings
pub mod Bundle
pub mod Natives
pub mod Returns
pub mod Methods
pub mod Fields
pub mod Keys
pub mod Table
pub mod Stable
pub mod Steps
pub mod Api
pub mod History
pub mod OneKey
pub mod Canonical
mod Tests
mod HandleTests
mod DataTests
