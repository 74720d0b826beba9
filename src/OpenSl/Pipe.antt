-- ===== src/OpenSl/Pipe.antt =====
-- What a player promises: a pipe of bytes, first in, first out.
use tasm2_nextos.Prelude.{
  ℕ, ◌-◌, ◌==◌, Bool, true, false, not, List, [], ◌∷◌, ◌++◌, if◌then◌else◌, length, take, drop,
  replicate,
}
use tasm2_nextos.OpenSl.State.{success, stopped, playing, Player}
use tasm2_nextos.OpenSl.Stream.{unplayed, stream}
use tasm2_nextos.OpenSl.Api.{
  Section, reserve, commit, give_back, audio, clear, set_state, register, start, wait, take_due,
  finish, report, destroy,
}

-- The bytes that were put in and have not come out, the mode, and whether it was destroyed.
pub record Pipe : Type 0 where
  pub bytes : List ℕ
  pub mode : ℕ
  pub destroyed : Bool

-- The pipe that a player implements.
unfoldable pub view : Player → Pipe
view p = record { bytes = stream p.queue; mode = p.play_state; destroyed = p.shutdown }

unfoldable pub flows : Pipe → Bool
flows q = if q.mode == playing then not q.destroyed else false

-- The next bytes of the stream: those of the pipe, then 0.
unfoldable pub pipe_output : ℕ → Pipe → List ℕ
pipe_output n q =
    if flows q then take n q.bytes ++ replicate (n - length q.bytes) 0 else replicate n 0

-- The pipe after a section that returned the code.
unfoldable pub pipe_after : Section → ℕ → Pipe → Pipe
pipe_after (commit self b peak) code q =
    if code == success then record q { bytes = q.bytes ++ unplayed b } else q
pipe_after (audio n) code q = if flows q then record q { bytes = drop n q.bytes } else q
pipe_after clear code q = if code == success then record q { bytes = [] } else q
pipe_after (set_state state) code q = if code == success then record q { mode = state } else q
pipe_after (destroy self) code q = record q { mode = stopped; destroyed = true }
pipe_after (reserve self) code q = q
pipe_after (give_back b) code q = q
pipe_after (register c x) code q = q
pipe_after (start self) code q = q
pipe_after wait code q = q
pipe_after take_due code q = q
pipe_after (finish e) code q = q
pipe_after (report now) code q = q

unfoldable pub section_output : Section → Pipe → List ℕ
section_output (audio n) q = pipe_output n q
section_output section q = []

-- All that comes out of a pipe in a history with its result codes.
unfoldable pub pipe_heard : List (Section × ℕ) → Pipe → List ℕ
pipe_heard [] q = []
pipe_heard ((section, code) ∷ history) q =
    section_output section q ++ pipe_heard history (pipe_after section code q)
