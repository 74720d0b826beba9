-- ===== src/OpenSl/Api.antt =====
-- What the threads do to a player, one section under its mutex at a time, and their histories.
-- The other calls only read the player.
use tasm2_nextos.Prelude.{ℕ, Option, List, [], ◌∷◌, ◌++◌, inc64}
use tasm2_nextos.OpenSl.State.{success, Buffer, Player}
use tasm2_nextos.OpenSl.Queue.{recycle_buffer, sdl_audio_callback}
use tasm2_nextos.OpenSl.Enqueue.{Reservation, refused, reserved, reserve_buffer, commit_buffer}
use tasm2_nextos.OpenSl.Play.{
  play_set_state, buffer_clear, buffer_register_callback, worker_start, worker_wait, worker_take,
  worker_finish, maybe_report, destroy_player,
}

-- `reserve`, `commit` and `give_back` are the sections of `asm2_sl_buffer_enqueue`.
pub data Section : Type 0 where
  reserve : ℕ → Section
  commit : ℕ → Buffer → ℕ → Section
  give_back : Buffer → Section
  audio : ℕ → Section
  clear : Section
  set_state : ℕ → Section
  register : Option ℕ → ℕ → Section
  start : ℕ → Section
  wait take_due : Section
  finish : ℕ → Section
  report : ℕ → Section
  destroy : ℕ → Section

-- The result code, what goes to the audio stream, and the player.
pub record Outcome : Type 0 where
  pub code : ℕ
  pub output : List ℕ
  pub player : Player

-- A section that plays nothing.
abbrev pub quiet : ℕ × Player → Outcome
quiet (code, p) = record { code = code; output = []; player = p }

abbrev pub reservation_code : Reservation → ℕ
reservation_code (refused e) = e
reservation_code (reserved b) = success

abbrev pub audible : Player × List ℕ → Outcome
audible (p, output) = record { code = success; output = output; player = p }

unfoldable pub act : Section → Player → Outcome
act (reserve self) p = quiet (reservation_code (reserve_buffer self p).0, (reserve_buffer self p).1)
act (commit self b peak) p = quiet (commit_buffer self b peak p)
act (give_back b) p =
    quiet (success, record (recycle_buffer b p) { enqueue_failures = inc64 p.enqueue_failures })
act (audio stream_length) p = audible (sdl_audio_callback stream_length p)
act clear p = quiet (buffer_clear p)
act (set_state state) p = quiet (play_set_state state p)
act (register callback context) p = quiet (buffer_register_callback callback context p)
act (start self) p = quiet (success, worker_start self p)
act wait p = quiet (success, worker_wait p)
act take_due p = quiet (success, (worker_take p).1)
act (finish before) p = quiet (success, worker_finish before p)
act (report now) p = quiet (success, maybe_report now p)
act (destroy self) p = quiet (success, destroy_player self p)

-- All that a history sends to the audio stream.
unfoldable pub heard : List Section → Player → List ℕ
heard [] p = []
heard (section ∷ history) p = (act section p).output ++ heard history (act section p).player

-- The history with the result code of each section.
unfoldable pub trace : List Section → Player → List (Section × ℕ)
trace [] p = []
trace (section ∷ history) p = (section, (act section p).code) ∷ trace history (act section p).player

-- The player after it.
unfoldable pub after : List Section → Player → Player
after [] p = p
after (section ∷ history) p = after history (act section p).player
