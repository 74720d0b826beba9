-- ===== src/Input/Mirror/View.antt =====
-- The game's view of the controls and the keys, and the single steps that keep it true.
use mathlib.Core.Bool.{xor}
use tasm2_nextos.Prelude.{
  ℕ, ◌≤◌, ◌<◌, ◌==◌, ltb, leb, ◌≡◌, refl, Bool, true, false, not, ◌&&◌, ◌||◌, List, [], ◌∷◌, arith,
  if◌then◌else◌, update, inl, inr, Bool-cases,
}
use tasm2_nextos.Prelude.Int.{ℤ, pos}
use tasm2_nextos.Input.State.{Output, hid, key, Callbacks, Input, emit}
use tasm2_nextos.Input.Hid.{send_hid, hid_last, close}
use tasm2_nextos.Input.Touch.{send_key, key_count}

-- The value that the game was last told for a control, and 0 before that.
abbrev pub game_hid : ℕ → List Output → ℤ
game_hid e [] = pos 0
game_hid e (hid j v ∷ log) = if e == j then v else game_hid e log
game_hid e (_ ∷ log) = game_hid e log

-- Whether the game was last told that the key is down.
abbrev pub game_key : ℕ → List Output → Bool
game_key k [] = false
game_key k (key j pressed ∷ log) = if k == j then pressed else game_key k log
game_key k (_ ∷ log) = game_key k log

pub record View (cb : Callbacks) (values : ℕ → ℤ) (sent keys : ℕ → Bool) (log : List Output)
    : Type 0 where
  pub hid_on : cb.hid ≡ true
  pub key_on : cb.key ≡ true
  pub controls : (e : ℕ) → game_hid e log ≡ values e
  pub unsent : (e : ℕ) → sent e ≡ false → values e ≡ pos 0
  pub control_range : (e : ℕ) → sent e ≡ true → (1 ≤ e) × (e ≤ hid_last)
  pub keys_down : (k : ℕ) → game_key k log ≡ keys k
  pub key_range : (k : ℕ) → keys k ≡ true → (1 ≤ k) × (k < key_count)

-- The callbacks for controls and keys are there; the game's view of each control is `hid_values`,
-- which is 0 for a control that has not been sent; its view of each key is `key_down`; and only
-- events 1 to 21 and keys 1 to 127 occur.
abbrev pub Mirror : {F : Type 0} → Input F → Type 0
Mirror i = View i.callbacks i.hid_values i.hid_sent i.key_down i.sent

-- An output that is about neither a control nor a key.
abbrev pub Silent : Output → Type 0
Silent (hid e v) = ⊥
Silent (key k p) = ⊥
Silent _ = Unit {0}

Silent-hid :
    (o : Output) (e : ℕ) (log : List Output) → Silent o → game_hid e (o ∷ log) ≡ game_hid e log
Silent-hid (hid e v) k log h = absurd h
Silent-hid (key e v) k log h = absurd h
Silent-hid _ k log h = refl

Silent-key :
    (o : Output) (e : ℕ) (log : List Output) → Silent o → game_key e (o ∷ log) ≡ game_key e log
Silent-key (hid e v) k log h = absurd h
Silent-key (key e v) k log h = absurd h
Silent-key _ k log h = refl

module _ {F : Type 0} where
  pub emit-true :
      (b : Bool) (o : Output) (i : Input F) → b ≡ true → emit b o i ≡ record i { sent = o ∷ i.sent }
  unfolding emit
  emit-true b o i e = rw e

  pub emit-Mirror :
      (b : Bool) (o : Output) (i : Input F) → Silent o → Mirror i → Mirror (emit b o i)
  unfolding emit
  emit-Mirror false o i h v = v
  emit-Mirror true o i h v = record {
    hid_on = v.hid_on;
    key_on = v.key_on;
    controls = λ e. rw (Silent-hid o e i.sent h) (v.controls e);
    unsent = v.unsent;
    control_range = v.control_range;
    keys_down = λ k. rw (Silent-key o k i.sent h) (v.keys_down k);
    key_range = v.key_range;
  }

  -- A value sent for a control: the view and the field change together.
  pub hid-Mirror :
      (e : ℕ) (x : ℤ) (i : Input F)
      → 1 ≤ e
      → e ≤ hid_last
      → Mirror i
      → Mirror (
          emit i.callbacks.hid (hid e x) (record i {
            hid_values = update i.hid_values e x;
            hid_sent = update i.hid_sent e true;
          }))
  hid-Mirror e x i lo hi v =
      rw
        (emit-true i.callbacks.hid (hid e x)
          (record i { hid_values = update i.hid_values e x; hid_sent = update i.hid_sent e true })
          v.hid_on)
        (record {
          hid_on = v.hid_on;
          key_on = v.key_on;
          controls = λ d. ground (arith, v.controls d);
          unsent = λ d h. ground (arith, v.unsent d);
          control_range = λ d h. ground (arith, v.control_range d);
          keys_down = v.keys_down;
          key_range = v.key_range;
        })

  pub send_hid-Mirror : (e : ℕ) (x : ℤ) (i : Input F) → Mirror i → Mirror (send_hid e x i)
  unfolding send_hid
  send_hid-Mirror e x i v =
      elim (Bool-cases (ltb e 1 || ltb hid_last e || i.hid_sent e && close (i.hid_values e) x)) [
        | inl skip ↦ rw skip v
        | inr fresh ↦ rw fresh (hid-Mirror e x i (ground arith) (ground arith) v)
      ]

  -- A key's change sent: the view and the field change together.
  pub key-Mirror :
      (k : ℕ) (p : Bool) (i : Input F)
      → 1 ≤ k
      → k < key_count
      → Mirror i
      → Mirror (emit i.callbacks.key (key k p) (record i { key_down = update i.key_down k p }))
  key-Mirror k p i lo hi v =
      rw
        (emit-true i.callbacks.key (key k p) (record i { key_down = update i.key_down k p })
          v.key_on)
        (record {
          hid_on = v.hid_on;
          key_on = v.key_on;
          controls = v.controls;
          unsent = v.unsent;
          control_range = v.control_range;
          keys_down = λ j. ground (arith, v.keys_down j);
          key_range = λ j h. ground (arith, v.key_range j);
        })

  pub send_key-Mirror : (k : ℕ) (p : Bool) (i : Input F) → Mirror i → Mirror (send_key k p i)
  unfolding send_key
  send_key-Mirror k p i v =
      elim (Bool-cases (k == 0 || leb key_count k || not (xor (i.key_down k) p))) [
        | inl skip ↦ rw skip v
        | inr fresh ↦ rw fresh (key-Mirror k p i (ground arith) (ground arith) v)
      ]
