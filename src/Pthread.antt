-- ===== src/Pthread.antt =====
-- asm2_127/src/pthread_bridge.c: the bridge from the guest's bionic threads to the host's pthreads.
-- `State` has the data, `Registry` the table of bridge objects, and each kind of object a module.
pub mod State
pub mod Registry
pub mod Create
pub mod Allocate
pub mod Attr
pub mod Mutex
pub mod Cond
pub mod Sem
pub mod Api
pub mod Stable
pub mod Invariant
pub mod Stale
mod Tests
pub mod Types
pub mod Tracking
pub mod Handoff
pub mod Once
pub mod Threads
pub mod Ids
mod IdsTests
pub mod Lazy
