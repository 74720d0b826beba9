-- ===== src/Bionic/Signals.antt =====
-- What the masks of signals keep on the way to the host and back.
use tasm2_nextos.Prelude.{
  ℕ, zero, suc, ◌+◌, ◌*◌, ◌/◌, ◌%◌, ◌^◌, ◌≤◌, ◌<◌, ◌==◌, ◌≡◌, refl, ap, ◌∙◌, Bool, true, false,
  ◌||◌, ◌&&◌, arith, if◌then◌else◌, ==_refl,
}
use native.Mathlib.Nat.{pow-suc}
use tasm2_nextos.Bionic.Abi.{
  SignalSet, add_signal, add_signals, mask_to_host, collect_signals, mask_to_guest,
}

-- The bit of a number, counted from 0.
unfoldable pub bit : ℕ → ℕ → ℕ
bit zero n = n % 2
bit (suc k) n = bit k (n / 2)

module _ (accepts : ℕ → Bool) where
  abbrev taken : Bool → ℕ → SignalSet → SignalSet
  taken b index signals = if b then add_signal accepts index signals else signals

  -- A round changes no other signal.
  taken_other :
      (b : Bool) (index : ℕ) (signals : SignalSet) (k : ℕ)
      → (k == index) ≡ false
      → taken b index signals k ≡ signals k
  unfolding add_signal
  taken_other true index signals k e = rw e (drop_and (accepts index))
    where
      drop_and : (a : Bool) → (a && false || signals k) ≡ signals k
      drop_and true = refl
      drop_and false = refl
  taken_other false index signals k e = refl

  taken_index :
      (b : Bool) (index : ℕ) (signals : SignalSet)
      → signals index ≡ false
      → taken b index signals index ≡ (b && accepts index)
  unfolding add_signal
  taken_index true index signals e = rw (==_refl index, e) (ground arith)
  taken_index false index signals e = e

  -- Signals below the loop's index are left alone.
  add_signals_below :
      (count index mask : ℕ) (signals : SignalSet) (k : ℕ)
      → k < index
      → add_signals accepts count index mask signals k ≡ signals k
  unfolding add_signals
  add_signals_below zero index mask signals k h = refl
  add_signals_below (suc count) index mask signals k h =
      add_signals_below count (index + 1) (mask / 2) (taken (mask % 2 == 1) index signals) k
        (omega (arith, h))
      ∙ taken_other (mask % 2 == 1) index signals k (ground (arith, h))

  -- The mask that the set from `index` on gives, and its bits.
  abbrev returned : ℕ → ℕ → ℕ → SignalSet → ℕ
  returned count index mask signals =
      collect_signals count index (add_signals accepts count index mask signals)

  returned-suc :
      (count index mask : ℕ) (signals : SignalSet)
      → signals index ≡ false
      → returned (suc count) index mask signals
        ≡ (if (mask % 2 == 1) && accepts index then 1 else 0)
          + 2 * returned count (index + 1) (mask / 2) (taken (mask % 2 == 1) index signals)
  unfolding collect_signals add_signals
  returned-suc count index mask signals e =
      rw
        (add_signals_below count (index + 1) (mask / 2) (taken (mask % 2 == 1) index signals) index
            (omega arith)
          ∙ taken_index (mask % 2 == 1) index signals e)
        refl

  first_bit :
      (a : Bool) (mask rest : ℕ)
      → ((if (mask % 2 == 1) && a then 1 else 0) + 2 * rest) % 2 ≡ (if a then mask % 2 else 0)
  first_bit a mask rest = ground arith

  other_bits :
      (a : Bool) (mask rest : ℕ) → ((if (mask % 2 == 1) && a then 1 else 0) + 2 * rest) / 2 ≡ rest
  other_bits a mask rest = ground arith

  none_above :
      (index mask : ℕ) (signals : SignalSet)
      → ((j : ℕ) → index ≤ j → signals j ≡ false)
      → (j : ℕ) → index + 1 ≤ j
      → taken (mask % 2 == 1) index signals j ≡ false
  none_above index mask signals none_yet j l =
      taken_other (mask % 2 == 1) index signals j (ground (arith, l))
      ∙ none_yet j (omega (arith, l))

  bit-returned :
      (count index mask : ℕ) (signals : SignalSet) (k : ℕ)
      → k < count
      → ((j : ℕ) → index ≤ j → signals j ≡ false)
      → bit k (returned count index mask signals) ≡ (if accepts (index + k) then bit k mask else 0)
  unfolding bit
  bit-returned zero index mask signals k h none_yet = absurd (omega (arith, h))
  bit-returned (suc count) index mask signals zero h none_yet =
      ap (λ n. n % 2) (returned-suc count index mask signals (none_yet index (omega arith)))
      ∙ first_bit (accepts index) mask _
      ∙ ap (λ i. if accepts i then mask % 2 else 0) (omega arith)
  bit-returned (suc count) index mask signals (suc k) h none_yet =
      ap (λ n. bit k (n / 2)) (returned-suc count index mask signals (none_yet index (omega arith)))
      ∙ ap (bit k) (other_bits (accepts index) mask _)
      ∙ bit-returned count (index + 1) (mask / 2) (taken (mask % 2 == 1) index signals) k
          (omega (arith, h)) (none_above index mask signals none_yet)
      ∙ ap (λ i. if accepts i then bit k (mask / 2) else 0) (omega arith)

collect_signals-lt :
    (count index : ℕ) (signals : SignalSet) → collect_signals count index signals < 2 ^ count
unfolding collect_signals
collect_signals-lt zero index signals = omega arith
collect_signals-lt (suc count) index signals =
    ground (arith, collect_signals-lt count (index + 1) signals, pow-suc 2 count)

-- Of the mask that the game gives to `sigaction` each bit is read back as it was, if the host keeps
-- the set and its `sigaddset` accepts the signal, and else as 0; and no other bit is set.
pub mask_to_guest-mask_to_host :
    (accepts : ℕ → Bool) (mask k : ℕ)
    → k < 32
    → (bit k (mask_to_guest (mask_to_host accepts mask))
        ≡ (if accepts (1 + k) then bit k mask else 0))
      × (mask_to_guest (mask_to_host accepts mask) < 2 ^ 32)
unfolding mask_to_guest mask_to_host
mask_to_guest-mask_to_host accepts mask k h = (
  bit-returned accepts 32 1 mask (λ j. false) k h (λ j e. refl),
  collect_signals-lt 32 1 (mask_to_host accepts mask),
)
