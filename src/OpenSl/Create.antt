-- ===== src/OpenSl/Create.antt =====
-- The players that `asm2_sl_engine_create_audio_player` makes.
use tasm2_nextos.Prelude.{
  ℕ, ◌≤◌, ◌<◌, ◌==◌, ◌≡◌, refl, Bool, true, false, not, Option, none, some, List, if◌then◌else◌,
  arith,
}
use tasm2_nextos.OpenSl.State.{success, realized, Player}
use tasm2_nextos.OpenSl.Object.{
  InterfaceId, Locator, DataSource, new_player, located_capacity, locator_supported,
  format_supported, validate_required_interfaces, engine_create_audio_player,
}
use tasm2_nextos.OpenSl.Pull.{Sound}
use tasm2_nextos.OpenSl.Release.{IsClosed}

-- A sound player that holds nothing, with room for at least one buffer, and it is the result of a
-- success; or no player, and an error.
abbrev pub IsFresh : ℕ × Option Player → Type 0
IsFresh (code, none) = (code == success) ≡ false
IsFresh (code, some p) = (code ≡ success) × Sound p × IsClosed p × (0 < p.queue_capacity)

IsFresh-branch :
    (b : Bool) (x y : ℕ × Option Player)
    → (b ≡ true → IsFresh x)
    → (b ≡ false → IsFresh y)
    → IsFresh (if b then x else y)
IsFresh-branch true x y f g = f refl
IsFresh-branch false x y f g = g refl

located_capacity_bounds :
    (l : Option Locator) → (0 < located_capacity l) × (located_capacity l ≤ 64)
unfolding located_capacity
located_capacity_bounds none = (omega arith, omega arith)
located_capacity_bounds (some l) = ground arith

code_wrong : (code : ℕ) → not (code == success) ≡ true → (code == success) ≡ false
code_wrong code e = ground arith

-- Creating a player reports success exactly with a player, and that player is sound, holds no
-- device, worker, mutex or subsystem, and has a capacity from 1 to 64 buffers, for any source.
pub engine_create_audio_player-IsFresh :
    (allocates : Bool) (state : ℕ) (source : DataSource) (ids : Option (List (InterfaceId × Bool)))
    → IsFresh (engine_create_audio_player allocates state source ids)
unfolding engine_create_audio_player
engine_create_audio_player-IsFresh allocates state source ids =
    IsFresh-branch (not (state == realized)) _ _ (λ e. refl)
      (λ e.
        IsFresh-branch (not (validate_required_interfaces ids true == success)) _ _
          (λ e. code_wrong (validate_required_interfaces ids true) e)
          (λ e.
            IsFresh-branch (not allocates) _ _ (λ e. refl)
              (λ e.
                IsFresh-branch (not (locator_supported source.locator)) _ _ (λ e. refl)
                  (λ e.
                    IsFresh-branch (not (format_supported source.format)) _ _ (λ e. refl)
                      (λ e. made)))))
  where
    bounds : (0 < located_capacity source.locator) × (located_capacity source.locator ≤ 64)
    bounds = located_capacity_bounds source.locator

    made :
        IsFresh
          (success, some (record new_player { queue_capacity = located_capacity source.locator }))
    made = (
      refl,
      record { buffers = tt; counted = refl; room = omega arith; modest = bounds.1 },
      record { unready = refl; unattended = refl; silent = refl; unacquired = refl },
      bounds.0,
    )
