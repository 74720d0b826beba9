-- ===== src/OpenSl/Refine.antt =====
-- A player behaves as a pipe of bytes, whatever the threads do.
use tasm2_nextos.Prelude.{
  ℕ, ◌+◌, ◌-◌, ◌==◌, ◌≡◌, ◌⊎◌, inl, inr, refl, sym, ap, ◌∙◌, Bool, true, false, List, [], ◌++◌,
  append-nil, arith, if◌then◌else◌, length, take, drop, replicate, length-append, take_all,
  drop_all, take-append_length, drop-append_length, Bool-cases,
}
use tasm2_nextos.OpenSl.State.{Player}
use tasm2_nextos.OpenSl.Queue.{
  Pull, pull, count_underrun, finish_stream, is_playing, sdl_audio_callback,
}
use tasm2_nextos.OpenSl.Stream.{stream}
use tasm2_nextos.OpenSl.Pull.{Sound, Ends, IsDrained, pull_lem}
use tasm2_nextos.OpenSl.Api.{Section, audio, act}
use tasm2_nextos.OpenSl.Pipe.{view, flows, pipe_output, pipe_after, section_output}

-- What was copied, filled up with 0, is the front of what there was.
module _ (out rest whole : List ℕ) (remaining n : ℕ) (bytes : out ++ rest ≡ whole)
    (budget : length out + remaining ≡ n) where
  copied_front :
      (rest ≡ []) ⊎ (remaining ≡ 0)
      → (out ++ replicate remaining 0 ≡ take n whole ++ replicate (n - length whole) 0)
        × (rest ≡ drop n whole)
  copied_front (inl empty) = (
    rw (sym whole-out, take_all n out (omega (arith, budget)), over) refl,
    empty ∙ sym (rw (sym whole-out) (drop_all n out (omega (arith, budget)))),
  )
    where
      whole-out : out ≡ whole
      whole-out = sym (append-nil out) ∙ (ap (λ zs. out ++ zs) (sym empty) ∙ bytes)

      over : n - length out ≡ remaining
      over = omega (arith, budget)
  copied_front (inr none_left) = (
    rw (none_left, n_is, sym bytes, take-append_length 0 out rest, short) (simp (append-nil)),
    rw (n_is, sym bytes, drop-append_length 0 out rest) refl,
  )
    where
      n_is : n ≡ length out + 0
      n_is = omega (arith, budget, none_left)

      short : length out + 0 - length (out ++ rest) ≡ 0
      short = omega (arith, length-append out rest)

module _ (n : ℕ) (p : Player) (v : Sound p) where
  abbrev begun : Pull
  begun = record { player = p; output = []; remaining = n }

  ended : Ends begun (pull (length p.queue + 1) begun)
  ended = pull_lem (length p.queue + 1) begun v (inr (omega arith))

  underrun_view : (s : Pull) → view (count_underrun s) ≡ view s.player
  unfolding view count_underrun
  underrun_view s = ground arith

  if-Sound : (b : Bool) (x y : Player) → Sound x → Sound y → Sound (if b then x else y)
  if-Sound true x y v w = v
  if-Sound false x y v w = w

  underrun-Sound : (s : Pull) → Sound s.player → Sound (count_underrun s)
  unfolding count_underrun
  underrun-Sound s w =
      if-Sound (s.remaining == 0) s.player _ w
        (record { buffers = w.buffers; counted = w.counted; room = w.room; modest = w.modest })

  drained_stream :
      IsDrained (pull (length p.queue + 1) begun)
      → (stream (pull (length p.queue + 1) begun).player.queue ≡ [])
        ⊎ ((pull (length p.queue + 1) begun).remaining ≡ 0)
  drained_stream (inl e) = inl (ap stream e)
  drained_stream (inr e) = inr e

  abbrev final : Pull
  final = pull (length p.queue + 1) begun

  front_copied :
      (finish_stream final ≡ take n (stream p.queue) ++ replicate (n - length (stream p.queue)) 0)
      × (stream final.player.queue ≡ drop n (stream p.queue))
  unfolding finish_stream
  front_copied =
      copied_front final.output (stream final.player.queue) (stream p.queue) final.remaining n
        ended.0.bytes (ended.0.budget ∙ omega arith) (drained_stream ended.2)

-- A section refines the pipe: the pipe after it, its output, and the invariant of the player.
pub record Refines (section : Section) (p : Player) : Type 0 where
  pub pipe : view (act section p).player ≡ pipe_after section (act section p).code (view p)
  pub sound_out : (act section p).output ≡ section_output section (view p)
  pub sound : Sound (act section p).player

flows-view : (p : Player) → flows (view p) ≡ is_playing p
unfolding flows view is_playing
flows-view p = refl

-- A section that leaves queue, mode and destruction alone.
module _ (n : ℕ) (p : Player) (v : Sound p) where
  left_over : view (final n p v).player ≡ record (view p) { bytes = drop n (view p).bytes }
  unfolding view
  left_over = rw ((front_copied n p v).1, (ended n p v).0.mode, (ended n p v).0.alive) refl

  audio_playing : is_playing p ≡ true → Refines (audio n) p
  unfolding act sdl_audio_callback pipe_after section_output pipe_output view
  audio_playing e = record {
    pipe = rw (e, flowing) (underrun_view n p v (final n p v) ∙ left_over);
    sound_out = rw (e, flowing) (front_copied n p v).0;
    sound = rw e (underrun-Sound n p v (final n p v) (ended n p v).1);
  }
    where
      flowing : flows (view p) ≡ true
      flowing = flows-view p ∙ e

  audio_silent : is_playing p ≡ false → Refines (audio n) p
  unfolding act sdl_audio_callback pipe_after section_output pipe_output
  audio_silent e = record {
    pipe = rw (e, flows-view p ∙ e) refl;
    sound_out = rw (e, flows-view p ∙ e) refl;
    sound = rw e v;
  }

  pub audio-Refines : Refines (audio n) p
  audio-Refines = elim (Bool-cases (is_playing p)) [
    | inl e ↦ audio_playing e
    | inr e ↦ audio_silent e
  ]
