-- ===== src/OpenSl/Device.antt =====
-- The host side of a player: SDL's audio subsystem, `asm2_sl_open_player`, and the release. What SDL
-- and the environment answer is a record, and what is held of the host is counted.
use tasm2_nextos.Prelude.{
  ℕ, ◌+◌, ◌-◌, ◌==◌, Bool, true, false, not, ◌&&◌, Option, none, some, List, [], ◌∷◌, if◌then◌else◌,
  inc64, same_text,
}
use tasm2_nextos.OpenSl.State.{success, memory_failure, resource_error, Player}
use tasm2_nextos.OpenSl.Play.{worker_start}

-- What is held: audio subsystems, mutexes, conditions, threads and devices, and the players that
-- `asm2_sl_players_released` counts.
pub record Held : Type 0 where
  pub subsystems : ℕ
  pub mutexes : ℕ
  pub conditions : ℕ
  pub threads : ℕ
  pub devices : ℕ
  pub released : ℕ

-- The answers: of the first and the second `SDL_InitSubSystem`, of `setenv`, of `SDL_CreateMutex`,
-- of `SDL_CreateCond`, of `SDL_CreateThread`, and of `SDL_OpenAudioDevice`; and the worker's thread.
pub record Host : Type 0 where
  pub starts : Bool
  pub restarts : Bool
  pub sets : Bool
  pub makes_mutex : Bool
  pub makes_condition : Bool
  pub makes_thread : Bool
  pub opens : ℕ
  pub worker_id : ℕ

-- "pulse"
abbrev pub pulse : List ℕ
pulse = 112 ∷ 117 ∷ 108 ∷ 115 ∷ 101 ∷ []

-- "pulseaudio"
abbrev pub pulseaudio : List ℕ
pulseaudio = 112 ∷ 117 ∷ 108 ∷ 115 ∷ 101 ∷ 97 ∷ 117 ∷ 100 ∷ 105 ∷ 111 ∷ []

-- "alsa"
abbrev pub alsa : List ℕ
alsa = 97 ∷ 108 ∷ 115 ∷ 97 ∷ []

-- Whether the driver of the environment is one to keep: it names one that is not PulseAudio.
unfoldable pub is_explicit : Option (List ℕ) → Bool
is_explicit none = false
is_explicit (some []) = false
is_explicit (some (c ∷ name)) =
    not (same_text (c ∷ name) pulse) && not (same_text (c ∷ name) pulseaudio)

-- `asm2_sl_initialize_audio_subsystem` with `ASM2_ARMHF_AUDIO_ALSA_FALLBACK`: whether it returns 0,
-- and `SDL_AUDIODRIVER` after it
unfoldable pub initialize_audio_subsystem : Host → Option (List ℕ) → Bool × Option (List ℕ)
initialize_audio_subsystem h driver =
    if h.starts
    then (true, driver)
    else if is_explicit driver
    then (false, driver)
    else if not h.sets
    then (false, driver)
    else if h.restarts
    then (true, some alsa)
    else (false, none)

-- The ends of `asm2_sl_open_player`: the code, the player, and what is held.
pub record Opened : Type 0 where
  pub code : ℕ
  pub player : Player
  pub held : Held

-- The failure of one of the two `SDL_Create` calls destroys what the other made.
unfoldable pub open_unsynchronized : Host → Player → Held → Opened
open_unsynchronized h p s = record {
  code = memory_failure;
  player = record p { ready = false; audio_subsystem_acquired = false };
  held = record s {
    subsystems = s.subsystems - 1;
    mutexes = if h.makes_mutex then s.mutexes - 1 else s.mutexes;
    conditions = if h.makes_condition then s.conditions - 1 else s.conditions;
  };
}

-- No worker.
unfoldable pub open_unattended : Player → Held → Opened
open_unattended p s = record {
  code = resource_error;
  player = record p { ready = false; audio_subsystem_acquired = false };
  held = record s {
    subsystems = s.subsystems - 1;
    mutexes = s.mutexes - 1;
    conditions = s.conditions - 1;
  };
}

-- No device: the worker is told to stop, and waited for.
unfoldable pub open_silent : Player → Held → Opened
open_silent p s = record {
  code = resource_error;
  player = record p {
    ready = false;
    worker = false;
    shutdown = false;
    audio_subsystem_acquired = false;
  };
  held = record s {
    subsystems = s.subsystems - 1;
    mutexes = s.mutexes - 1;
    conditions = s.conditions - 1;
    threads = s.threads - 1;
  };
}

-- The device, once the worker has started.
unfoldable pub open_device : Host → Player → Held → Opened
open_device h p s = if h.opens == 0 then open_silent p s else record {
  code = success;
  player = record p { device = h.opens };
  held = record s { devices = s.devices + 1 };
}

-- What comes after the subsystem.
unfoldable pub open_synchronized : Host → Player → Held → Opened
open_synchronized h p s =
    let s1 = record s {
      mutexes = if h.makes_mutex then s.mutexes + 1 else s.mutexes;
      conditions = if h.makes_condition then s.conditions + 1 else s.conditions;
    } in
    if not (h.makes_mutex && h.makes_condition)
    then open_unsynchronized h p s1
    else if not h.makes_thread
    then open_unattended p s1
    else open_device h (worker_start h.worker_id (record p { ready = true; worker = true }))
        (record s1 { threads = s1.threads + 1 })

-- `asm2_sl_open_player`
unfoldable pub open_player : Host → Option (List ℕ) → Player → Held → Opened
open_player h driver p s =
    if (initialize_audio_subsystem h driver).0
    then open_synchronized h (record p { audio_subsystem_acquired = true })
        (record s { subsystems = s.subsystems + 1 })
    else record { code = resource_error; player = p; held = s }

-- `asm2_sl_release_player`
unfoldable pub release_player : Player → Held → Held
release_player p s = record s {
  conditions = if p.ready then s.conditions - 1 else s.conditions;
  mutexes = if p.ready then s.mutexes - 1 else s.mutexes;
  subsystems = if p.audio_subsystem_acquired then s.subsystems - 1 else s.subsystems;
  released = inc64 s.released;
}
