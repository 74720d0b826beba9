-- ===== src/Pthread/Stable.antt =====
-- A property of the state that every primitive change of pthread_bridge.c keeps is kept by every
-- entry point.
mod Core
mod Records
mod Attributes
mod Mutexes
mod Conditions
mod Semaphores
mod Ops
pub use Core.{Keeps, Rely, Stable}
pub use Ops.{step-Stable, run-Stable}
