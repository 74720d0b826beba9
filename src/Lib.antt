-- ===== src/Lib.antt =====
-- A model of the runtime of the NextOS port of The Amazing Spider-Man 2, which loads the Android
-- game's ARM library into a Linux process and gives it the libraries that it expects.
--
-- The parts of the program in this library, all of asm2_127/src:
--
-- pthread_bridge.c and .h: the guest's mutexes, condition variables, semaphores and attributes are
-- 32-bit words that hold handles of host objects. Every entry point looks its object up in a
-- registry of 256 buckets, makes it from the static initialiser where there is none, and calls the
-- host's function on it.
--   Pthread/State        `struct asm2_bridge_object`, the static variables, and the parameter Host
--   Pthread/Registry     `registry_find`, `object_publish_locked`, `object_retire_locked`,
--                        `object_get`, `asm2_pthread_bridge_get_stats`
--   Pthread/Create       `object_allocate_locked`, the `*_host_init` and `*_get_or_create`
--                        functions, and the common texts of the init and destroy functions
--   Pthread/Attr, Mutex, Cond, Sem    `asm2_pthread_attr_*` and `asm2_pthread_mutexattr_*`,
--                        `asm2_pthread_mutex_*`, `asm2_pthread_cond_*`, `asm2_sem_*`
--   Pthread/Api          the entry points that change state as one step function, and histories
--   Pthread/Threads      `asm2_pthread_create` to `asm2_pthread_self`, with a `pthread_t` as its bytes
--   Pthread/Once         `asm2_pthread_once` as a step relation, with cancellation
-- and the proofs: Registry/Find, Registry/Table, Registry/Publish, Registry/Retire and
-- Registry/Complete on lookup and the well-formed registry; Stable, a frame that carries any
-- property kept by the kinds of change that the code makes through every entry point; Invariant and
-- Stale, which use it; Lazy, Types, Tracking, Handoff, Once/Safety and Registry/Longest.
--
-- first_accept.c: FirstAccept, the places where the first-run dialogs are touched.
--
-- input.c: SDL events become the callbacks of the game's input interface. It calls first_accept.c.
--   Input/State          `struct asm2_input`, the callbacks' calls as outputs, and the parameters
--                        Sdl and Floats
--   Input/Hid            HID values, first-run touches, controllers
--   Input/Touch          keyboard, fingers, mouse
--   Input/Pump           `asm2_input_init`, `asm2_input_pump`, `asm2_input_shutdown`
--   Input/Persist        the file operations of `persist_first_run_touch_state`, with their proof
-- and the proofs in Input/Mirror and Input/Touch/Bounds.
--
-- opensl_bridge.c: OpenSL ES players over SDL's audio. A player is a queue of buffers that the game
-- fills, the audio thread empties and a worker thread asks for more of.
--   OpenSl/State         the codes, the buffers and `struct asm2_sl_player`
--   OpenSl/Queue         recycling and clearing of buffers, `asm2_sl_sdl_audio_callback`
--   OpenSl/Enqueue       `asm2_sl_buffer_enqueue`, as its two sections and the copy between them
--   OpenSl/Play          the play and buffer queue interfaces, the sections of the worker
--   OpenSl/Device        `asm2_sl_initialize_audio_subsystem`, `asm2_sl_open_player`, the release
--   OpenSl/Object        the object and engine interfaces, creation and destruction
--   OpenSl/Api           what the threads do to a player, one section at a time, and histories
--   OpenSl/Pipe          the abstract player: a first-in, first-out pipe of bytes
-- and the proofs: Stream and Pull on the bytes of the queue and the callback's loop; Refine, Quiet,
-- Change and History on the refinement of the pipe; Fill, Serving on a callback
-- while other threads run, Worker, Release and Create.
--
-- bionic_compat.c: Android's C library on the host's.
--   Bionic/Files         the registry of FILE objects, chains of wrappers in memory
--   Bionic/Streams, Stdio  taking and giving back references, and the functions on streams
--   Bionic/Paths, Calls  the translation of paths, and the functions on paths
--   Bionic/Abi, Ctype    structures, signal masks, tables
-- and the proofs: Chain and Close on the registry, Lifetime on one wrapper, as a step relation of
-- the threads' acquires, releases and closes, Translate, Refused and Signals.
--
-- so_util.c: the loader of the ARM library.
--   Elf/Image            the checks and the layout of `so_load`, its copies, addresses and hooks
--   Elf/Symbols, Sections  symbols, imports, the tables of the dynamic linker, the init array
--   Elf/Relocate         `so_relocate`, `so_resolve`, and the search for slots
-- and the proofs: Layout, Copy, Import on what an import is bound to, and Resolve.
--
-- jni_bridge.c: the Java bridge. The game's calls of JNI work on handles, which a table of 1024
-- buckets finds by their addresses and a second one by what they name.
--   Jni/Text             `asm2_utf8_codepoint`, `asm2_fill_utf16`, `asm2_utf16_to_utf8`
--   Jni/State            `asm2_handle`, `asm2_bundle_entry`, `asm2_registered_native`, the static
--                        variables, and the parameter Memory
--   Jni/Handles          `asm2_allocate_handle_locked`, `asm2_find_handle_locked`, the hashes
--   Jni/Intern           the `asm2_intern_*` functions, `asm2_new_object_handle`
--   Jni/Throw            exceptions, classes, references and direct buffers
--   Jni/Arrays, Strings  arrays, their elements and regions; the characters of strings
--   Jni/Bundle, Natives  the bundles, the registered natives
--   Jni/Returns, Methods, Fields    `asm2_default_method`, `asm2_dispatch_method` and the fields,
--                        with the callbacks of the program as the parameter Program
--   Jni/Api              the functions that change the state as one step function, and histories
-- and the proofs: Codec on the texts; Keys on what identifies a handle; Table on the changes that
-- the functions make to the tables; Steps on the changes that each function makes; History
-- and Stable, which carry properties through histories; Canonical on interned handles;
-- OneKey, Arrays/Laws, Bundle/Laws, Natives/Records, Natives/Laws and Natives/Forget.
--
-- How C is modelled. Addresses and unsigned words are natural numbers; a counter that wraps is
-- written with `% 2 ^ w`. A function that changes static data takes a state and returns one. What
-- the program only calls is a parameter: Host is the C library, with the other threads (they run
-- where the registry's lock is taken and where a function waits); ThreadHost is its thread
-- functions; the signals that the host's `sigaddset` accepts are an argument of the masks; Sdl is
-- what SDL answers during an event; Floats are the floats of finger coordinates. Rely states what
-- a theorem asks of the host: that `calloc` returns memory that is not in use, and that the other
-- threads keep the property. In jni_bridge.c, Memory is what `calloc` and `malloc` answer, by the
-- state and the size, so that two calls of one size within a function agree, and IsFresh that a
-- new handle is at an address that is not in use; Uses, that the program's callbacks change the
-- bridge only through its functions. A function of the bridge is one step there, of one thread,
-- whose pending exception is the one in the state; a method or a field is asked for with a name
-- and a signature. HID values are integers over a common denominator, on which the code's
-- comparisons come out as on its doubles. Loops are recursions on the list or on the rounds that
-- are left, with two exceptions that take fuel: the audio callback's loop has one round more than
-- there are buffers in the queue, which is enough, since every round but the last empties a
-- buffer; and a walk along a chain of FILE wrappers takes the fuel as an argument, more than the
-- chain's length being enough. The events that wait are a list with SDL's answers. A section of
-- code under a player's mutex is one step, and what happens between the two sections of an enqueue
-- is a parameter.
--
-- Not modelled: the memory orderings of the lock-free lookups, an access sees the state between
-- whole calls; the functions on thread keys of pthread_bridge.c that only call the host's; the
-- handlers that `asm2_sigaction` passes on; the functions of jni_bridge.c's tables that only
-- unpack their arguments, or only return one of them, and the filling of these tables; reading,
-- protecting and unmapping the library, and the i386 loader of so_util_x86.c; log output; the
-- other files of asm2_127/src; and third_party, which is another project's code.
pub mod Prelude
pub mod Pthread
pub mod FirstAccept
pub mod Input
pub mod OpenSl
pub mod Bionic
pub mod Elf
pub mod Jni
