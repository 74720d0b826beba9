-- ===== src/Pthread/Stale.antt =====
-- A handle whose object was retired is never taken for a live one again: the claim of the
-- comment on retired wrappers at the head of pthread_bridge.c.
use mathlib.Core.Option
use native.Mathlib.Decide.{ℕ_discrete}
use tasm2_nextos.Prelude.{
  ℕ, ◌≡◌, refl, ◌≢◌, inl, inr, ◌∙◌, Bool, true, false, Option, none, some, List, arith, update,
  update_self, update_ne, Option-cases, some_eq, sym, ap,
}
use tasm2_nextos.Pthread.State.{Kind, Object, State, Host, modify_object}
use tasm2_nextos.Pthread.Registry.{
  registry_find, object_publish, object_retire, publish_object, retire_object,
}
use tasm2_nextos.Pthread.Registry.Find.{
  registry_find_sound, object_publish-some, object_retire-some, object_retire-none,
}
use tasm2_nextos.Pthread.Registry.Table.{Same, Same-forth, Dead}
use tasm2_nextos.Pthread.Create.{fresh_object}
use tasm2_nextos.Pthread.Api.{Op, run}
use tasm2_nextos.Pthread.Stable.{Rely, Stable, run-Stable}
use tasm2_nextos.Pthread.Invariant.{
  Inv, Keeps-Same, update-Same, made_object, made_here, made_there, run-Inv, retire-Inv,
}

-- An object that was retired, as memory has it.
abbrev pub IsRetired : {W : Type 0} → ℕ → State W → Type 0
IsRetired a s = Dead s.heap a

Dead-Same :
    {heap heap' : ℕ → Option Object} (a : ℕ) → Same (heap' a) (heap a) → Dead heap a → Dead heap' a
Dead-Same {heap} {heap'} a same d =
    let (o, e, r, m, l) = Same-forth (heap' a) (heap a) d.object same d.stored in
    record { object = o; stored = e; stale = sym l ∙ d.stale }

module _ {W : Type 0} (s : State W) (a : ℕ) (d : IsRetired a s) where
  clash : some d.object ≡ none → ⊥
  clash e = cc

  not_free : (b : ℕ) → s.heap b ≡ none → a ≢ b
  not_free b free e = (clash (sym d.stored ∙ ap s.heap e ∙ free))

  publish-IsRetired :
      (b owner : ℕ) (k : Kind) (t : ℕ) (w : W)
      → s.heap b ≡ none
      → IsRetired a (
          object_publish b (
            modify_object b
              (λ o. record o { guest_mutex_type = t })
              (record s { heap = update s.heap b (some (fresh_object b owner k)); world = w })))
  unfolding publish_object modify_object
  publish-IsRetired b owner k t w free =
      rw
        (object_publish-some
          (modify_object b (λ o. record o { guest_mutex_type = t })
            (record s { heap = update s.heap b (some (fresh_object b owner k)); world = w }))
          b (made_object s b owner k t) (made_here s b owner k t))
        (record {
          object = d.object;
          stored = made_there s b owner k t a (not_free b free) ∙ d.stored;
          stale = d.stale;
        })

  retire-IsRetired : (b : ℕ) → IsRetired a (object_retire b s)
  unfolding retire_object
  retire-IsRetired b = elim (Option-cases (s.heap b)) [
    | inl e ↦ rw (object_retire-none s b e) d
    | inr (o, e) ↦ rw (object_retire-some s b o e) (elim (ℕ_discrete a b) [
      | yes q ↦ record {
        object = record o { active = false };
        stored = rw q (update_self s.heap b (some (record o { active = false })));
        stale = refl;
      }
      | no q ↦ record {
        object = d.object;
        stored = update_ne s.heap b (some (record o { active = false })) a q ∙ d.stored;
        stale = d.stale;
      }
    ])
  ]

  free-IsRetired :
      (b owner : ℕ) (k : Kind) (w : W)
      → s.heap b ≡ none
      → IsRetired a (record s {
        heap = update (update s.heap b (some (fresh_object b owner k))) b none;
        world = w;
      })
  free-IsRetired b owner k w free = record {
    object = d.object;
    stored = elsewhere ∙ d.stored;
    stale = d.stale;
  }
    where
      elsewhere : update (update s.heap b (some (fresh_object b owner k))) b none a ≡ s.heap a
      elsewhere = ground (arith, not_free b free)

module _ (h : Host) where
  open h use {World}

  IsRetired-Stable : (a : ℕ) → Stable h (IsRetired a)
  unfolding modify_object
  IsRetired-Stable a = record {
    world = λ s w d. d;
    handoff = λ s n d. d;
    modify = λ s b f keeps d.
        Dead-Same a
          (update-Same s.heap b (Option.map f (s.heap b)) (Keeps-Same f keeps (s.heap b)) a) d;
    publish = λ s b owner k t w free nz d. publish-IsRetired s a d b owner k t w free;
    free = λ s b owner k w free d. free-IsRetired s a d b owner k w free;
    retire = λ s b d. retire-IsRetired s a d b;
  }

live_dead : {x y : Bool} → x ≡ y → x ≡ true → y ≡ false → ⊥
live_dead e l d = cc

-- A retired handle is found in no slot and as no kind of object.
pub registry_find-IsRetired :
    {W : Type 0} (s : State W) (a owner : ℕ) (k : Kind)
    → Inv s
    → IsRetired a s
    → registry_find s a owner k ≡ none
registry_find-IsRetired s a owner k v d = elim (Option-cases (registry_find s a owner k)) [
  | inl e ↦ e
  | inr (b, e) ↦
      let (o, stored, fits, on, nz) = registry_find_sound s a owner k b e in
      let same : b ≡ a = sym (v.headers b o stored).0 ∙ fits.handle in
      let twin : o ≡ d.object = some_eq (sym stored ∙ ap s.heap same ∙ d.stored) in
      absurd (live_dead (ap (λ (x : Object). x.active) twin) fits.live d.stale)
]

-- Once the object with handle `a` has been retired, no history of calls, new objects included,
-- makes a lookup of that handle succeed, in any slot and as any kind, if `calloc` returns memory
-- that is not in use and the other threads keep the registry well formed and the object retired.
pub find-run-object_retire :
    (h : Host) (ops : List (ℕ × Op)) (s : State h.World) (a : ℕ) (o : Object) (owner : ℕ) (k : Kind)
    → Rely h Inv
    → Rely h (IsRetired a)
    → Inv s
    → s.heap a ≡ some o
    → registry_find (run h ops (object_retire a s)) a owner k ≡ none
unfolding retire_object
find-run-object_retire h ops s a o owner k rely rely_a v e =
    registry_find-IsRetired (run h ops (object_retire a s)) a owner k
      (run-Inv h ops (object_retire a s) rely (retire-Inv s a v))
      (run-Stable h (IsRetired a) rely_a (IsRetired-Stable h a) ops (object_retire a s) now)
  where
    now : IsRetired a (object_retire a s)
    now = rw (object_retire-some s a o e) (record {
      object = record o { active = false };
      stored = update_self s.heap a (some (record o { active = false }));
      stale = refl;
    })
