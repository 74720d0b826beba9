-- ===== src/Pthread/Registry/Publish.antt =====
-- Publication keeps the registry well formed.
use native.Mathlib.Decide.{ℕ_discrete}
use tasm2_nextos.Prelude.{
  ℕ, ◌==◌, ◌≡◌, refl, ◌≢◌, inl, inr, ◌∙◌, true, Option, none, some, List, ◌∷◌, update, update_self,
  Bool-cases, ==_iff, some_eq, sym, ap, subst,
}
use tasm2_nextos.Pthread.State.{bridge_magic, Object}
use tasm2_nextos.Pthread.Registry.{registry_bucket}
use tasm2_nextos.Pthread.Registry.Find.{On}
use tasm2_nextos.Pthread.Registry.Table.{Distinct, Linked, Table}

module _ {heap heap' : ℕ → Option Object} {registry : ℕ → List ℕ} {retired : List ℕ} (a : ℕ) where
  -- A new live object under its own handle, linked in front of its bucket's chain.
  pub Table-publish :
      (o : Object)
      → heap a ≡ none
      → a ≢ 0
      → heap' a ≡ some o
      → ((b : ℕ) → b ≢ a → heap' b ≡ heap b)
      → o.raw_handle ≡ a
      → o.magic ≡ bridge_magic
      → o.active ≡ true
      → Table heap registry retired
      → Table heap' (update registry (registry_bucket a) (a ∷ registry (registry_bucket a))) retired
  Table-publish o free nz new others handle magic live t = record {
    nonnull = others 0 (λ e. nz (sym e)) ∙ t.nonnull;
    headers = headers;
    linked = linked;
    complete = complete;
    distinct = distinct;
    dead = λ b on.
        let k = t.dead b on in
        record {
          object = k.object;
          stored = others b (absent b k.object k.stored) ∙ k.stored;
          stale = k.stale;
        };
  }
    where
      absent : (b : ℕ) (p : Object) → heap b ≡ some p → b ≢ a
      absent b p e q = cc (ap heap q)

      headers :
          (b : ℕ) (p : Object) → heap' b ≡ some p → (p.raw_handle ≡ b) × (p.magic ≡ bridge_magic)
      headers b p e = elim (ℕ_discrete b a) [
        | yes q ↦
            let s : o ≡ p = some_eq (sym new ∙ sym (ap heap' q) ∙ e) in
            (
              ap (λ (x : Object). x.raw_handle) (sym s) ∙ handle ∙ sym q,
              ap (λ (x : Object). x.magic) (sym s) ∙ magic,
            )
        | no q ↦ t.headers b p (sym (others b q) ∙ e)
      ]

      here : (c b : ℕ) → On b (registry c) → Linked heap' c b
      here c b on =
          let k = t.linked c b on in
          record {
            object = k.object;
            stored = others b (absent b k.object k.stored) ∙ k.stored;
            live = k.live;
            bucket = k.bucket;
          }

      first :
          (c b : ℕ)
          → c ≡ registry_bucket a
          → On b (a ∷ registry (registry_bucket a))
          → Linked heap' c b
      first c b e (inl q) = record {
        object = o;
        stored = ap heap' q ∙ new;
        live = live;
        bucket = ap registry_bucket q ∙ sym e;
      }
      first c b e (inr on) = here c b (subst (λ x. On b (registry x)) (sym e) on)

      linked :
          (c b : ℕ)
          → On b (update registry (registry_bucket a) (a ∷ registry (registry_bucket a)) c)
          → Linked heap' c b
      linked c b on = elim (Bool-cases (c == registry_bucket a)) [
        | inl e ↦ first c b ((==_iff c (registry_bucket a)).0 e) (rw e at on)
        | inr e ↦ here c b (rw e at on)
      ]

      wider :
          (c b : ℕ)
          → On b (registry c)
          → On b (update registry (registry_bucket a) (a ∷ registry (registry_bucket a)) c)
      wider c b on = elim (Bool-cases (c == registry_bucket a)) [
        | inl e ↦
            rw e (inr (subst (λ x. On b (registry x)) ((==_iff c (registry_bucket a)).0 e) on))
        | inr e ↦ rw e on
      ]

      complete :
          (b : ℕ) (p : Object)
          → heap' b ≡ some p
          → p.active ≡ true
          → On b (
              update registry
                (registry_bucket a)
                (a ∷ registry (registry_bucket a))
                (registry_bucket b))
      complete b p e l = elim (ℕ_discrete b a) [
        | yes q ↦
            subst
              (λ x. On x (
                update registry (registry_bucket a) (a ∷ registry (registry_bucket a))
                  (registry_bucket x)))
              (sym q) (rw update_self (inl refl))
        | no q ↦ wider (registry_bucket b) b (t.complete b p (sym (others b q) ∙ e) l)
      ]

      distinct :
          (c : ℕ)
          → Distinct (update registry (registry_bucket a) (a ∷ registry (registry_bucket a)) c)
      distinct c = elim (Bool-cases (c == registry_bucket a)) [
        | inl e ↦ rw e (
          (λ on.
              absent a (t.linked (registry_bucket a) a on).object
                (t.linked (registry_bucket a) a on).stored refl),
          t.distinct (registry_bucket a),
        )
        | inr e ↦ rw e (t.distinct c)
      ]
