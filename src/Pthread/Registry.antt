-- ===== src/Pthread/Registry.antt =====
-- The registry of bridge objects: lines 80 to 241 of pthread_bridge.c.
-- A chain of `active_next` links is the list of the addresses on it.
pub mod Find
pub mod Table
pub mod Publish
pub mod Retire
pub mod Complete
pub mod Longest
use tasm2_nextos.Prelude.{
  ℕ, zero, suc, ◌+◌, ◌-◌, ◌/◌, ◌%◌, ◌^◌, bit_xor, ◌==◌, ltb, Bool, true, false, ◌&&◌, Option, none,
  some, List, [], ◌∷◌, if◌then◌else◌, update, inc64,
}
use tasm2_nextos.Pthread.State.{
  einval, bridge_magic, registry_buckets, Kind, same_kind, Object, Host, State, Result, ok, err,
}

-- `registry_bucket`; the mask `& 255` is `% 256`.
unfoldable pub registry_bucket : ℕ → ℕ
registry_bucket raw =
    let a = bit_xor raw (raw / 2 ^ 16) in let b = bit_xor a (a / 2 ^ 8) in b % registry_buckets

-- The test of `registry_find`'s loop. A dangling address, which `Inv` rules out, matches nothing.
unfoldable pub matches : Option Object → ℕ → ℕ → Kind → Bool
matches none raw owner k = false
matches (some o) raw owner k =
    o.raw_handle == raw
    && o.owner == owner
    && o.magic == bridge_magic
    && same_kind o.kind k
    && o.active

unfoldable pub scan : (ℕ → Option Object) → ℕ → ℕ → Kind → List ℕ → Option ℕ
scan heap raw owner k [] = none
scan heap raw owner k (a ∷ chain) =
    if matches (heap a) raw owner k then some a else scan heap raw owner k chain

-- `*link = next` at the node that is `object`, if the chain has it.
unfoldable pub unlink : ℕ → List ℕ → List ℕ
unlink object [] = []
unlink object (a ∷ chain) = if a == object then chain else a ∷ unlink object chain

module _ {W : Type 0} where
  -- `registry_find`
  unfoldable pub registry_find : State W → ℕ → ℕ → Kind → Option ℕ
  registry_find s raw owner k =
      if raw == 0 then none else scan s.heap raw owner k (s.registry (registry_bucket raw))

  -- `object_publish_locked` of the object at `a`
  unfoldable pub publish_object : ℕ → Object → State W → State W
  publish_object a o s =
      let bucket = registry_bucket o.raw_handle in
      record s {
        registry = update s.registry bucket (a ∷ s.registry bucket);
        slots = update s.slots o.owner o.raw_handle;
        created = inc64 s.created;
        active = inc64 s.active;
      }

  unfoldable pub object_publish : ℕ → State W → State W
  object_publish a s = elim (s.heap a) [ none ↦ s | some o ↦ publish_object a o s ]

  -- `object_retire_locked` of the object at `a`
  unfoldable pub retire_object : ℕ → Object → State W → State W
  retire_object a o s =
      let bucket = registry_bucket o.raw_handle in
      record s {
        heap = update s.heap a (some (record o { active = false }));
        slots = update s.slots o.owner 0;
        registry = update s.registry bucket (unlink a (s.registry bucket));
        retired_objects = a ∷ s.retired_objects;
        active = if s.active == 0 then 0 else s.active - 1;
        retired = inc64 s.retired;
      }

  unfoldable pub object_retire : ℕ → State W → State W
  object_retire a s = elim (s.heap a) [ none ↦ s | some o ↦ retire_object a o s ]

  -- `object_already_active_locked`
  unfoldable pub object_already_active : State W → ℕ → Kind → Bool
  object_already_active s slot k = elim (registry_find s (s.slots slot) slot k) [
    | none ↦ false
    | some a ↦ true
  ]

  -- `object_get`
  unfoldable pub object_get : State W → ℕ → Kind → Result ℕ
  object_get s guest k =
      if guest == 0
      then err einval
      else elim (registry_find s (s.slots guest) guest k) [ none ↦ err einval | some a ↦ ok a ]

-- `asm2_pthread_bridge_get_stats`: the length of a chain, in a `uint32_t`.
unfoldable pub chain_length : ℕ → List ℕ → ℕ
chain_length len [] = len
chain_length len (a ∷ chain) = chain_length ((len + 1) % 2 ^ 32) chain

-- The loop over the buckets that are left, from `bucket` on.
unfoldable pub longest_from : (ℕ → List ℕ) → ℕ → ℕ → ℕ → ℕ
longest_from registry zero bucket longest = longest
longest_from registry (suc left) bucket longest =
    let len = chain_length 0 (registry bucket) in
    longest_from registry left (bucket + 1) (if ltb longest len then len else longest)

-- `struct asm2_pthread_bridge_stats`
pub record Stats : Type 0 where
  pub created : ℕ
  pub active : ℕ
  pub retired : ℕ
  pub mutex_handoffs : ℕ
  pub longest_active_bucket : ℕ

-- `asm2_pthread_bridge_get_stats` for a pointer that is not NULL. The static
-- `longest_active_bucket` is never written, and is 0.
module _ {W : Type 0} where
  unfoldable pub stats_locked : State W → Stats
  unfolding longest_from
  stats_locked s = record {
    created = s.created;
    active = s.active;
    retired = s.retired;
    mutex_handoffs = s.mutex_handoff_count;
    longest_active_bucket = longest_from s.registry registry_buckets 0 0;
  }

unfoldable pub get_stats : (h : Host) → State h.World → Stats
unfolding stats_locked
get_stats h s = stats_locked (h.enter s)
