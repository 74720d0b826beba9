-- ===== src/OpenSl/Object.antt =====
-- The calls on objects: `asm2_sl_object_*`, and the creation of players, mixes and engines.
use tasm2_nextos.Prelude.{
  ℕ, ◌-◌, ◌==◌, ltb, leb, Bool, true, false, not, ◌&&◌, ◌||◌, Option, none, some, List, [], ◌∷◌,
  if◌then◌else◌,
}
use tasm2_nextos.OpenSl.State.{
  success, preconditions_violated, parameter_invalid, memory_failure, feature_unsupported,
  unrealized, realized, suspended, stopped, Player,
}
use tasm2_nextos.OpenSl.Play.{destroy_player}
use tasm2_nextos.OpenSl.Device.{Host, Held, Opened, open_player, release_player}

-- `enum asm2_sl_object_kind`
pub data Kind : Type 0 where
  engine player output_mix : Kind

-- The interface ids that the library compares with, and any other.
pub data InterfaceId : Type 0 where
  iid_engine iid_play iid_bufferqueue : InterfaceId
  iid_other : ℕ → InterfaceId

-- `asm2_sl_object_realize` of a player
unfoldable pub realize_player : Host → Option (List ℕ) → Bool → Player → Held → Opened
realize_player h driver is_async p s =
    if is_async
    then record { code = feature_unsupported; player = p; held = s }
    else if p.state == realized
    then record { code = success; player = p; held = s }
    else (let o = open_player h driver p s in
        if o.code == success then record o { player = record o.player { state = realized } } else o)

-- `asm2_sl_object_realize` of an engine or a mix in the state
unfoldable pub realize_object : Bool → ℕ → ℕ × ℕ
realize_object is_async state =
    if is_async then (feature_unsupported, state) else (success, realized)

-- `asm2_sl_object_resume`
unfoldable pub object_resume : Bool → ℕ → ℕ
object_resume is_async state =
    if is_async
    then feature_unsupported
    else if state == suspended
    then feature_unsupported
    else success

-- `asm2_sl_object_get_interface`: the interface of the object that is handed out
unfoldable pub object_get_interface : Kind → InterfaceId → ℕ × Option InterfaceId
object_get_interface engine iid_engine = (success, some iid_engine)
object_get_interface player iid_play = (success, some iid_play)
object_get_interface player iid_bufferqueue = (success, some iid_bufferqueue)
object_get_interface engine iid_play = (feature_unsupported, none)
object_get_interface engine iid_bufferqueue = (feature_unsupported, none)
object_get_interface engine (iid_other n) = (feature_unsupported, none)
object_get_interface player iid_engine = (feature_unsupported, none)
object_get_interface player (iid_other n) = (feature_unsupported, none)
object_get_interface output_mix id = (feature_unsupported, none)

-- Whether an object of the kind has the interface: the tests of the loop below.
unfoldable pub has_interface : Bool → InterfaceId → Bool
has_interface true iid_play = true
has_interface true iid_bufferqueue = true
has_interface true iid_engine = false
has_interface true (iid_other n) = false
has_interface false iid_engine = true
has_interface false iid_play = false
has_interface false iid_bufferqueue = false
has_interface false (iid_other n) = false

-- The loop of `asm2_sl_validate_required_interfaces`, over the ids with their `required` flags.
unfoldable pub validate_each : Bool → List (InterfaceId × Bool) → ℕ
validate_each player_interfaces [] = success
validate_each player_interfaces ((id, required) ∷ rest) =
    if not required || has_interface player_interfaces id
    then validate_each player_interfaces rest
    else feature_unsupported

-- `asm2_sl_validate_required_interfaces`; `none` is NULL ids for a count that is not 0, and without
-- flags every id is required.
unfoldable pub validate_required_interfaces : Option (List (InterfaceId × Bool)) → Bool → ℕ
validate_required_interfaces none player_interfaces = parameter_invalid
validate_required_interfaces (some ids) player_interfaces = validate_each player_interfaces ids

-- `struct asm2_sl_buffer_queue_locator`
pub record Locator : Type 0 where
  pub locator_type : ℕ
  pub num_buffers : ℕ

-- `struct asm2_sl_pcm_format`
pub record PcmFormat : Type 0 where
  pub format_type : ℕ
  pub num_channels : ℕ
  pub samples_per_sec : ℕ
  pub bits_per_sample : ℕ
  pub container_size : ℕ
  pub endianness : ℕ

-- `struct asm2_sl_data_source`
pub record DataSource : Type 0 where
  pub locator : Option Locator
  pub format : Option PcmFormat

-- The player that `calloc` and the assignments make.
abbrev pub new_player : Player
new_player = record {
  state = unrealized;
  device = 0;
  ready = false;
  worker = false;
  callback_thread_id = 0;
  queue = [];
  free_buffers = [];
  queued_count = 0;
  queue_capacity = 2;
  play_index = 0;
  played_frames = 0;
  frequency = 32000;
  channels = 2;
  bytes_per_frame = 4;
  play_state = stopped;
  pending_callbacks = 0;
  pending_recovery_callbacks = 0;
  callback_in_flight = false;
  callback_generation = 0;
  in_flight_generation = 0;
  shutdown = false;
  destroy_on_worker_exit = false;
  destroy_resources_closed = false;
  audio_subsystem_acquired = false;
  callback = none;
  callback_context = 0;
  in_flight_callback = none;
  in_flight_context = 0;
  enqueue_serial = 0;
  enqueues = 0;
  completed_buffers = 0;
  callbacks = 0;
  callbacks_without_enqueue = 0;
  recovery_callbacks = 0;
  stale_enqueues = 0;
  enqueue_failures = 0;
  underruns = 0;
  underrun_bytes = 0;
  peak_pcm = 0;
  last_report_ticks = 0;
}

-- The capacity that a locator gives, within 64; an empty number keeps 2.
unfoldable pub located_capacity : Option Locator → ℕ
located_capacity none = 2
located_capacity (some l) = if ltb 0 l.num_buffers && leb l.num_buffers 64 then l.num_buffers else 2

-- The test on the locator: a queue of buffers (`ASM2_SL_DATALOCATOR_BUFFERQUEUE`).
unfoldable pub locator_supported : Option Locator → Bool
locator_supported none = true
locator_supported (some l) = l.locator_type == 6

-- The test on the format: 16 bit stereo PCM of 32 kHz, of no or of little endianness.
unfoldable pub format_supported : Option PcmFormat → Bool
format_supported none = true
format_supported (some f) =
    f.format_type == 2
    && f.num_channels == 2
    && f.samples_per_sec == 32000000
    && f.bits_per_sample == 16
    && f.container_size == 16
    && (f.endianness == 0 || f.endianness == 2)

-- `asm2_sl_engine_create_audio_player` of an engine in the state, with the result of `calloc`
unfoldable pub engine_create_audio_player :
    Bool → ℕ → DataSource → Option (List (InterfaceId × Bool)) → ℕ × Option Player
engine_create_audio_player allocates state source ids =
    if not (state == realized)
    then (preconditions_violated, none)
    else if not (validate_required_interfaces ids true == success)
    then (validate_required_interfaces ids true, none)
    else if not allocates
    then (memory_failure, none)
    else if not (locator_supported source.locator)
    then (feature_unsupported, none)
    else if not (format_supported source.format)
    then (feature_unsupported, none)
    else (success, some (record new_player { queue_capacity = located_capacity source.locator }))

-- The loop of `asm2_sl_engine_create_output_mix`: no interface may be required.
unfoldable pub requires_none : List (InterfaceId × Bool) → Bool
requires_none [] = true
requires_none ((id, required) ∷ rest) = if required then false else requires_none rest

-- `asm2_sl_engine_create_output_mix`: the state of the mix
unfoldable pub engine_create_output_mix :
    Bool → ℕ → Option (List (InterfaceId × Bool)) → ℕ × Option ℕ
engine_create_output_mix allocates state none =
    if not (state == realized) then (preconditions_violated, none) else (parameter_invalid, none)
engine_create_output_mix allocates state (some ids) =
    if not (state == realized)
    then (preconditions_violated, none)
    else if not (requires_none ids)
    then (feature_unsupported, none)
    else if not allocates
    then (memory_failure, none)
    else (success, some unrealized)

-- `asm2_slCreateEngine`: the state of the engine
unfoldable pub create_engine : Bool → Option (List (InterfaceId × Bool)) → ℕ × Option ℕ
create_engine allocates ids =
    if not (validate_required_interfaces ids false == success)
    then (validate_required_interfaces ids false, none)
    else if not allocates
    then (memory_failure, none)
    else (success, some unrealized)

-- `SDL_CloseAudioDevice` of the device of before the section.
unfoldable pub close_device : ℕ → Held → Held
close_device device s = if device == 0 then s else record s { devices = s.devices - 1 }

-- Whether the worker destroys its own player.
unfoldable pub is_deferred : ℕ → Player → Bool
is_deferred self p = p.worker && p.callback_thread_id == self

-- `asm2_sl_object_destroy` of a player by the thread `self`, without the handoff of the guest's
-- mutex: the player if its worker has still to release it
unfoldable pub object_destroy : ℕ → Player → Held → Option Player × Held
object_destroy self p s =
    if not p.ready
    then (none, release_player p s)
    else (let p1 = destroy_player self p in
        let s1 = close_device p.device s in
        if is_deferred self p
        then (some (record p1 { worker = false; destroy_resources_closed = true }), s1)
        else (
          none,
          release_player p1 (if p.worker then record s1 { threads = s1.threads - 1 } else s1),
        ))

-- The end of `asm2_sl_callback_worker` for a detached player, which its destruction waits for no more.
unfoldable pub worker_exit : Player → Held → Held
worker_exit p s =
    let s1 = record s { threads = s.threads - 1 } in
    if p.destroy_on_worker_exit then release_player p s1 else s1
