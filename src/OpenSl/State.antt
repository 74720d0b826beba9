-- ===== src/OpenSl/State.antt =====
-- The data of opensl_bridge.c. A chain of `next` links is the list of the buffers on it, in the
-- order of the links, and the `tail` pointer is the end of the list. A callback is a number, and
-- `none` is NULL. The players' interfaces and SDL's mutex and condition are left out: `ready` is
-- whether the mutex has been made.
use tasm2_nextos.Prelude.{ℕ, Bool, Option, List, []}

-- `ASM2_SL_RESULT_*`
abbrev pub success : ℕ
success = 0

abbrev pub preconditions_violated : ℕ
preconditions_violated = 1

abbrev pub parameter_invalid : ℕ
parameter_invalid = 2

abbrev pub memory_failure : ℕ
memory_failure = 3

abbrev pub resource_error : ℕ
resource_error = 4

abbrev pub buffer_insufficient : ℕ
buffer_insufficient = 7

abbrev pub feature_unsupported : ℕ
feature_unsupported = 12

-- `ASM2_SL_OBJECT_STATE_*`
abbrev pub unrealized : ℕ
unrealized = 1

abbrev pub realized : ℕ
realized = 2

abbrev pub suspended : ℕ
suspended = 3

-- `ASM2_SL_PLAYSTATE_*`
abbrev pub stopped : ℕ
stopped = 1

abbrev pub paused : ℕ
paused = 2

abbrev pub playing : ℕ
playing = 3

-- `struct asm2_sl_audio_buffer`; `contents` is the memory behind `data`, as far as it was written
pub record Buffer : Type 0 where
  pub contents : List ℕ
  pub size : ℕ
  pub offset : ℕ
  pub capacity : ℕ

-- What `calloc` gives.
abbrev pub empty_buffer : Buffer
empty_buffer = record { contents = []; size = 0; offset = 0; capacity = 0 }

-- `struct asm2_sl_player`; `state` is the object's
pub record Player : Type 0 where
  pub state : ℕ
  pub device : ℕ
  pub ready : Bool
  pub worker : Bool
  pub callback_thread_id : ℕ
  pub queue : List Buffer
  pub free_buffers : List Buffer
  pub queued_count : ℕ
  pub queue_capacity : ℕ
  pub play_index : ℕ
  pub played_frames : ℕ
  pub frequency : ℕ
  pub channels : ℕ
  pub bytes_per_frame : ℕ
  pub play_state : ℕ
  pub pending_callbacks : ℕ
  pub pending_recovery_callbacks : ℕ
  pub callback_in_flight : Bool
  pub callback_generation : ℕ
  pub in_flight_generation : ℕ
  pub shutdown : Bool
  pub destroy_on_worker_exit : Bool
  pub destroy_resources_closed : Bool
  pub audio_subsystem_acquired : Bool
  pub callback : Option ℕ
  pub callback_context : ℕ
  pub in_flight_callback : Option ℕ
  pub in_flight_context : ℕ
  pub enqueue_serial : ℕ
  pub enqueues : ℕ
  pub completed_buffers : ℕ
  pub callbacks : ℕ
  pub callbacks_without_enqueue : ℕ
  pub recovery_callbacks : ℕ
  pub stale_enqueues : ℕ
  pub enqueue_failures : ℕ
  pub underruns : ℕ
  pub underrun_bytes : ℕ
  pub peak_pcm : ℕ
  pub last_report_ticks : ℕ
