-- ===== src/OpenSl/Pull.antt =====
-- The loop of `asm2_sl_sdl_audio_callback` copies the front of the queue's bytes, and ends.
use tasm2_nextos.Prelude.{
  ℕ, zero, suc, ◌+◌, ◌-◌, ◌≤◌, ◌==◌, ◌≡◌, ◌⊎◌, inl, inr, refl, sym, ap, subst, ◌∙◌, Bool, true,
  false, List, [], ◌∷◌, ◌++◌, append_assoc, arith, if◌then◌else◌, length, take, drop, All,
  length-take, length-append, length-drop, Bool-cases, ==_iff,
}
use tasm2_nextos.OpenSl.State.{Buffer, Player}
use tasm2_nextos.OpenSl.Queue.{
  recycle_buffer, Pull, complete_head, pull_count, advance, played, pull_head, pull,
}
use tasm2_nextos.OpenSl.Stream.{
  unplayed, stream, Holds, pull_count_le, pull_count_all, advance-offset, advance-Holds,
  unplayed-advance, advance-size,
}

-- Every queued buffer's bytes are there, and the counter counts the buffers, no more than allowed.
pub record Sound (p : Player) : Type 0 where
  pub buffers : All Holds p.queue
  pub counted : p.queued_count ≡ length p.queue
  pub room : p.queued_count ≤ p.queue_capacity
  pub modest : p.queue_capacity ≤ 64

-- What a run of the loop keeps: the bytes in all, the length of the stream, and who plays.
pub record Drains (s t : Pull) : Type 0 where
  pub bytes : t.output ++ stream t.player.queue ≡ s.output ++ stream s.player.queue
  pub budget : length t.output + t.remaining ≡ length s.output + s.remaining
  pub mode : t.player.play_state ≡ s.player.play_state
  pub alive : t.player.shutdown ≡ s.player.shutdown

Drains-refl : (s : Pull) → Drains s s
Drains-refl s = record { bytes = refl; budget = refl; mode = refl; alive = refl }

Drains-trans : (s t u : Pull) → Drains s t → Drains t u → Drains s u
Drains-trans s t u p q = record {
  bytes = q.bytes ∙ p.bytes;
  budget = q.budget ∙ p.budget;
  mode = q.mode ∙ p.mode;
  alive = q.alive ∙ p.alive;
}

module _ (count : ℕ) (b : Buffer) (rest : List Buffer) (p : Player) where
  played-mode :
      ((played count b rest p).play_state ≡ p.play_state)
      × ((played count b rest p).shutdown ≡ p.shutdown)
      × ((played count b rest p).queue_capacity ≡ p.queue_capacity)
  unfolding played complete_head recycle_buffer
  played-mode = ground arith

  played_done :
      b.offset ≡ b.size
      → ((played count b rest p).queue ≡ rest)
        × ((played count b rest p).queued_count
            ≡ (if p.queued_count == 0 then 0 else p.queued_count - 1))
  unfolding played complete_head recycle_buffer
  played_done e = rw ((==_iff b.offset b.size).1 e) (refl, refl)

  played_more :
      (b.offset == b.size) ≡ false
      → ((played count b rest p).queue ≡ b ∷ rest)
        × ((played count b rest p).queued_count ≡ p.queued_count)
  unfolding played
  played_more e = rw e (refl, refl)

module _ (b : Buffer) (rest : List Buffer) (s : Pull) (queued : s.player.queue ≡ b ∷ rest) where
  abbrev front : ℕ
  front = pull_count b s.remaining

  abbrev left : Buffer
  left = advance front b

  abbrev copied : List ℕ
  copied = take front (drop b.offset b.contents)

  stream_before : stream s.player.queue ≡ unplayed b ++ stream rest
  stream_before = ap stream queued

  -- The bytes after a round, if those of the queue after it are what the buffer and the rest hold.
  round_bytes :
      Holds b
      → (queue : List Buffer) → stream queue ≡ unplayed left ++ stream rest
      → (s.output ++ copied) ++ stream queue ≡ s.output ++ stream s.player.queue
  round_bytes h queue e =
      rw
        (
          e,
          stream_before,
          sym (unplayed-advance b s.remaining h),
          append_assoc s.output copied (unplayed left ++ stream rest),
          append_assoc copied (unplayed left) (stream rest),
        )
        refl

  nothing_left : left.offset ≡ left.size → unplayed left ≡ []
  nothing_left e = rw (e, none_over) refl
    where
      none_over : left.size - left.size ≡ 0
      none_over = omega arith

  length-copied : Holds b → length copied ≡ front
  length-copied h = length-take front (drop b.offset b.contents) (
      omega
        (arith, pull_count_le b s.remaining h, length-drop b.offset b.contents, h.written, h.begun))

  round_budget :
      Holds b → length (s.output ++ copied) + (s.remaining - front) ≡ length s.output + s.remaining
  round_budget h =
      omega (arith, length-append s.output copied, length-copied h, pull_count_le b s.remaining h)

  -- How a round ends: the buffer is done, or no byte is asked for any more.
  pub round_Drains : Holds b → Drains s (pull_head b rest s)
  unfolding pull_head
  round_Drains h = elim (Bool-cases (left.offset == left.size)) [
    | inl e ↦
        let done : left.offset ≡ left.size = (==_iff left.offset left.size).0 e in
        drains rest (played_done front left rest s.player done).0 (rw (nothing_left done) refl)
    | inr e ↦ drains (left ∷ rest) (played_more front left rest s.player e).0 refl
  ]
    where
      drains :
          (queue : List Buffer)
          → (played front left rest s.player).queue ≡ queue
          → stream queue ≡ unplayed left ++ stream rest
          → Drains s (pull_head b rest s)
      drains queue q e = record {
        bytes = ap (λ c. (s.output ++ copied) ++ stream c) q ∙ round_bytes h queue e;
        budget = round_budget h;
        mode = (played-mode front left rest s.player).0;
        alive = (played-mode front left rest s.player).1;
      }

  pub round_Sound : Sound s.player → Sound (pull_head b rest s).player
  unfolding pull_head
  round_Sound v = elim (Bool-cases (left.offset == left.size)) [
    | inl e ↦
        let done : left.offset ≡ left.size = (==_iff left.offset left.size).0 e in
        let d = played_done front left rest s.player done in
        record {
          buffers = subst (All Holds) (sym d.0) held.1;
          counted = d.1 ∙ (ground (arith, count, ap length d.0));
          room = ground (arith, d.1, kept, v.room);
          modest = omega (arith, kept, v.modest);
        }
    | inr e ↦
        let d = played_more front left rest s.player e in
        record {
          buffers = subst (All Holds) (sym d.0) (advance-Holds b s.remaining held.0, held.1);
          counted = d.1 ∙ (omega (arith, count, ap length d.0));
          room = omega (arith, d.1, kept, v.room);
          modest = omega (arith, kept, v.modest);
        }
  ]
    where
      held : All Holds (b ∷ rest)
      held = subst (All Holds) queued v.buffers

      count : s.player.queued_count ≡ suc (length rest)
      count = v.counted ∙ ap length queued

      kept : (played front left rest s.player).queue_capacity ≡ s.player.queue_capacity
      kept = (played-mode front left rest s.player).2

  -- A round shortens the queue, or leaves nothing to write.
  pub round_shrinks :
      Holds b → ((pull_head b rest s).player.queue ≡ rest) ⊎ ((pull_head b rest s).remaining ≡ 0)
  unfolding pull_head
  round_shrinks h = elim (Bool-cases (left.offset == left.size)) [
    | inl e ↦ inl (played_done front left rest s.player ((==_iff left.offset left.size).0 e)).0
    | inr e ↦ inr (omega (arith, all_taken e))
  ]
    where
      all_taken : (left.offset == left.size) ≡ false → front ≡ s.remaining
      all_taken e =
          pull_count_all b s.remaining h
            (λ q. ground (arith, advance-offset b s.remaining h, advance-size b s.remaining h))

-- The loop's test fails.
abbrev pub IsDrained : Pull → Type 0
IsDrained s = (s.player.queue ≡ []) ⊎ (s.remaining ≡ 0)

-- The outcome of the loop from `s` on.
abbrev pub Ends : Pull → Pull → Type 0
Ends s t = Drains s t × Sound t.player × IsDrained t

-- Enough rounds are left.
abbrev pub IsEnough : ℕ → Pull → Type 0
IsEnough fuel s = (s.remaining ≡ 0) ⊎ (length s.player.queue ≤ fuel)

module _ (fuel : ℕ) (ih : (t : Pull) → Sound t.player → IsEnough fuel t → Ends t (pull fuel t))
    (s : Pull) (v : Sound s.player) (enough : IsEnough (suc fuel) s) where
  IsEnough-after :
      (b : Buffer) (rest : List Buffer)
      → s.player.queue ≡ b ∷ rest
      → (s.remaining == 0) ≡ false
      → ((pull_head b rest s).player.queue ≡ rest) ⊎ ((pull_head b rest s).remaining ≡ 0)
      → IsEnough fuel (pull_head b rest s)
  IsEnough-after b rest q more (inr z) = inl z
  IsEnough-after b rest q more (inl e) = inr (ground (arith, ap length e, ap length q))

  round_Ends :
      (b : Buffer) (rest : List Buffer) (t : Bool)
      → s.player.queue ≡ b ∷ rest
      → (s.remaining == 0) ≡ t
      → Ends s (elim t as (λ c. Pull) [ true ↦ s | false ↦ pull fuel (pull_head b rest s) ])
  round_Ends b rest true q e = (Drains-refl s, v, inr ((==_iff s.remaining 0).0 e))
  round_Ends b rest false q e =
      let h : Holds b = (subst (All Holds) q v.buffers).0 in
      let r =
        ih (pull_head b rest s) (round_Sound b rest s q v)
          (IsEnough-after b rest q e (round_shrinks b rest s q h)) in
      (Drains-trans s (pull_head b rest s) _ (round_Drains b rest s q h) r.0, r.1, r.2)

  loop_Ends :
      (q : List Buffer)
      → s.player.queue ≡ q
      → Ends s (elim q as (λ c. Pull) [
        | [] ↦ s
        | b ∷ rest ↦ elim (s.remaining == 0) as (λ c. Pull) [
          | true ↦ s
          | false ↦ pull fuel (pull_head b rest s)
        ]
      ])
  loop_Ends [] e = (Drains-refl s, v, inl e)
  loop_Ends (b ∷ rest) e = round_Ends b rest (s.remaining == 0) e refl

-- From a sound player, fuel for as many rounds as there are buffers in the queue, or any fuel if
-- nothing is to be written, lets the loop end by its own test: the queue is empty or nothing is left
-- to write. What was written and what the queue holds are the bytes of before, the stream's length
-- is what was written and what is left to write, and the player is sound, in the same mode.
pub pull_lem : (fuel : ℕ) (s : Pull) → Sound s.player → IsEnough fuel s → Ends s (pull fuel s)
unfolding pull
pull_lem zero s v (inl z) = (Drains-refl s, v, inr z)
pull_lem zero s v (inr short) = (Drains-refl s, v, inl (empty s.player.queue short))
  where
    empty : (q : List Buffer) → length q ≤ 0 → q ≡ []
    empty [] h = refl
    empty (b ∷ q) h = absurd (omega arith)
pull_lem (suc fuel) s v enough =
    loop_Ends fuel (λ t w e. pull_lem fuel t w e) s v enough s.player.queue refl
