-- ===== src/Pthread/Registry/Complete.antt =====
-- Lookups of live objects succeed, and publication makes an object found.
use tasm2_nextos.Prelude.{
  ℕ, ◌==◌, ◌≡◌, refl, ◌≢◌, inl, inr, ◌∙◌, true, false, none, some, arith, update_self, Bool-cases,
  ==_iff, ==_refl, sym, ap,
}
use tasm2_nextos.Pthread.State.{bridge_magic, Object, State}
use tasm2_nextos.Pthread.Registry.{
  matches, scan, registry_bucket, registry_find, object_publish, publish_object,
}
use tasm2_nextos.Pthread.Registry.Find.{
  On, matches-Fits, Fits-matches, scan_complete, object_publish-some,
}
use tasm2_nextos.Pthread.Registry.Table.{Table}

-- In a well-formed registry a live object is found by its handle, its slot and its kind.
pub registry_find_complete :
    {W : Type 0} (s : State W) (a : ℕ) (o : Object)
    → Table s.heap s.registry s.retired_objects
    → s.heap a ≡ some o
    → o.active ≡ true
    → registry_find s a o.owner o.kind ≡ some a
unfolding registry_find
registry_find_complete s a o t stored live = elim (Bool-cases (a == 0)) [
  | inl z ↦ absurd (nothing (sym t.nonnull ∙ ap s.heap (sym ((==_iff a 0).0 z)) ∙ stored))
  | inr nz ↦ rw nz (
      scan_complete s.heap a o.owner o.kind (s.registry (registry_bucket a)) a
        (t.complete a o stored live)
        (rw stored (
          Fits-matches o a o.owner o.kind (record {
            handle = (t.headers a o stored).0;
            slot = refl;
            magic = (t.headers a o stored).1;
            kind = refl;
            live = live;
          })))
        only)
]
  where
    nothing : none ≡ some o → ⊥
    nothing e = cc

    only :
        (b : ℕ)
        → On b (s.registry (registry_bucket a))
        → matches (s.heap b) a o.owner o.kind ≡ true
        → b ≡ a
    only b on m =
        let (p, e, fits) = matches-Fits (s.heap b) a o.owner o.kind m in
        sym (t.headers b p e).0 ∙ fits.handle

-- Once an active object with the magic number is published, whose handle is its own address and not
-- NULL, it is found through the slot that it was published in.
pub find-object_publish :
    {W : Type 0} (s : State W) (a : ℕ) (o : Object)
    → s.heap a ≡ some o
    → o.raw_handle ≡ a
    → a ≢ 0
    → o.magic ≡ bridge_magic
    → o.active ≡ true
    → registry_find (object_publish a s) ((object_publish a s).slots o.owner) o.owner o.kind
      ≡ some a
unfolding registry_find publish_object scan
find-object_publish s a o stored handle nz magic live = rw (
  object_publish-some s a o stored,
  update_self,
  handle,
  zero_test,
  ==_refl (registry_bucket a),
  stored,
  hit,
)
  where
    zero_test : (a == 0) ≡ false
    zero_test = ground arith

    hit : matches (some o) a o.owner o.kind ≡ true
    hit =
        Fits-matches o a o.owner o.kind
          (record { handle = handle; slot = refl; magic = magic; kind = refl; live = live })
