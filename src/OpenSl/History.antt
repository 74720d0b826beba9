-- ===== src/OpenSl/History.antt =====
-- Every section of a player's calls refines the pipe, and so does every history of them.
use tasm2_nextos.Prelude.{◌≡◌, refl, List, [], ◌∷◌, All}
use tasm2_nextos.OpenSl.State.{Player}
use tasm2_nextos.OpenSl.Stream.{Holds}
use tasm2_nextos.OpenSl.Pull.{Sound}
use tasm2_nextos.OpenSl.Api.{
  Section, reserve, commit, give_back, audio, clear, set_state, register, start, wait, take_due,
  finish, report, destroy, act, heard, trace, after,
}
use tasm2_nextos.OpenSl.Pipe.{view, pipe_heard}
use tasm2_nextos.OpenSl.Refine.{Refines, audio-Refines}
use tasm2_nextos.OpenSl.Quiet.{
  reserve-Refines, give_back-Refines, register-Refines, start-Refines, wait-Refines,
  take_due-Refines, finish-Refines, report-Refines, destroy-Refines,
}
use tasm2_nextos.OpenSl.Change.{set_state-Refines, clear-Refines, commit-Refines}

-- What the caller of a section owes: a committed buffer has been filled.
unfoldable pub Ready : Section → Type 0
Ready (commit self b peak) = Holds b
Ready (reserve self) = Unit
Ready (give_back b) = Unit
Ready (audio n) = Unit
Ready clear = Unit
Ready (set_state s) = Unit
Ready (register c x) = Unit
Ready (start self) = Unit
Ready wait = Unit
Ready take_due = Unit
Ready (finish e) = Unit
Ready (report now) = Unit
Ready (destroy self) = Unit

section-Refines : (section : Section) (p : Player) → Sound p → Ready section → Refines section p
unfolding Ready
section-Refines (reserve self) p v r = reserve-Refines p v self
section-Refines (commit self b peak) p v r = commit-Refines p v self b peak r
section-Refines (give_back b) p v r = give_back-Refines p v b
section-Refines (audio n) p v r = audio-Refines n p v
section-Refines clear p v r = clear-Refines p v
section-Refines (set_state state) p v r = set_state-Refines p v state
section-Refines (register c x) p v r = register-Refines p v c x
section-Refines (start self) p v r = start-Refines p v self
section-Refines wait p v r = wait-Refines p v
section-Refines take_due p v r = take_due-Refines p v
section-Refines (finish e) p v r = finish-Refines p v e
section-Refines (report now) p v r = report-Refines p v now
section-Refines (destroy self) p v r = destroy-Refines p v self

-- Whatever the order of the sections of all threads, if a buffer is committed only when it is
-- filled, what the audio stream receives from a sound player is what comes out of a first-in,
-- first-out pipe of bytes with the player's contents, to which the same commits, clears, mode
-- changes and destructions with the same result codes happen: the next bytes while it plays, and 0
-- where there are none or it does not play.
pub heard-pipe_heard :
    (history : List Section) (p : Player)
    → Sound p
    → All Ready history
    → heard history p ≡ pipe_heard (trace history p) (view p)
unfolding heard pipe_heard trace
heard-pipe_heard [] p v r = refl
heard-pipe_heard (section ∷ history) p v r =
    let step : Refines section p = section-Refines section p v r.0 in
    rw (step.sound_out, heard-pipe_heard history (act section p).player step.sound r.1, step.pipe)
      refl

-- In any order of the sections of all threads, if a buffer is committed only when it is filled, a
-- player stays sound: each queued buffer's unplayed bytes lie in its memory, and the counter is
-- the number of queued buffers and within the capacity.
pub after-Sound :
    (history : List Section) (p : Player) → Sound p → All Ready history → Sound (after history p)
unfolding after
after-Sound [] p v r = v
after-Sound (section ∷ history) p v r =
    after-Sound history (act section p).player (section-Refines section p v r.0).sound r.1
