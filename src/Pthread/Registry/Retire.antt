-- ===== src/Pthread/Registry/Retire.antt =====
-- Retirement keeps the registry well formed.
use native.Mathlib.Decide.{ℕ_discrete}
use tasm2_nextos.Prelude.{
  ℕ, ◌==◌, ◌≡◌, refl, ◌≢◌, inl, inr, ◌∙◌, true, false, Option, some, List, [], ◌∷◌, update,
  update_self, update_ne, Bool-cases, ==_iff, some_eq, sym, ap, subst,
}
use tasm2_nextos.Pthread.State.{bridge_magic, Object}
use tasm2_nextos.Pthread.Registry.{unlink, registry_bucket}
use tasm2_nextos.Pthread.Registry.Find.{On, On-unlink}
use tasm2_nextos.Pthread.Registry.Table.{Distinct, Dead, Table}

On-unlink_ne : (a b : ℕ) (chain : List ℕ) → b ≢ a → On b chain → On b (unlink a chain)
unfolding unlink
On-unlink_ne a b [] ne o = o
On-unlink_ne a b (x ∷ chain) ne o = elim (Bool-cases (x == a)) [
  | inl e ↦ rw e (skip ((==_iff x a).0 e) o)
  | inr e ↦ rw e (keep (On-unlink_ne a b chain ne) o)
]
  where
    skip : x ≡ a → On b (x ∷ chain) → On b chain
    skip e (inl q) = absurd (ne (q ∙ e))
    skip e (inr on) = on

    keep : (On b chain → On b (unlink a chain)) → On b (x ∷ chain) → On b (x ∷ unlink a chain)
    keep rest (inl q) = inl q
    keep rest (inr on) = inr (rest on)

-- Unlinking a node of a chain with no repetition leaves none of it.
not-On-unlink : (a : ℕ) (chain : List ℕ) → Distinct chain → On a (unlink a chain) → ⊥
unfolding unlink
not-On-unlink a [] d o = o
not-On-unlink a (x ∷ chain) d o = elim (Bool-cases (x == a)) [
  | inl e ↦ d.0 (subst (λ y. On y chain) (sym ((==_iff x a).0 e)) (rw e at o))
  | inr e ↦ later (not-On-unlink a chain d.1) (λ q. cc ((==_iff x a).1 (sym q))) (rw e at o)
]
  where
    later : (On a (unlink a chain) → ⊥) → (a ≡ x → ⊥) → On a (x ∷ unlink a chain) → ⊥
    later rest ne (inl q) = ne q
    later rest ne (inr on) = rest on

Distinct-unlink : (a : ℕ) (chain : List ℕ) → Distinct chain → Distinct (unlink a chain)
unfolding unlink
Distinct-unlink a [] d = d
Distinct-unlink a (x ∷ chain) d = elim (Bool-cases (x == a)) [
  | inl e ↦ rw e d.1
  | inr e ↦ rw e (λ on. d.0 (On-unlink a x chain on), Distinct-unlink a chain d.1)
]

module _ (registry : ℕ → List ℕ) (a : ℕ) where
  -- The chains once the object is unlinked.
  abbrev chains : ℕ → List ℕ
  chains = update registry (registry_bucket a) (unlink a (registry (registry_bucket a)))

  -- A chain of the new registry is part of the old one.
  chains-On : (c b : ℕ) → On b (chains c) → On b (registry c)
  chains-On c b on = elim (Bool-cases (c == registry_bucket a)) [
    | inl e ↦
        subst (λ x. On b (registry x)) (sym ((==_iff c (registry_bucket a)).0 e))
          (On-unlink a b (registry (registry_bucket a)) (rw e at on))
    | inr e ↦ rw e at on
  ]

  -- No other object leaves its chain.
  On-chains : (c b : ℕ) → b ≢ a → On b (registry c) → On b (chains c)
  On-chains c b ne on = elim (Bool-cases (c == registry_bucket a)) [
    | inl e ↦ rw e (
        On-unlink_ne a b (registry (registry_bucket a)) ne
          (subst (λ x. On b (registry x)) ((==_iff c (registry_bucket a)).0 e) on))
    | inr e ↦ rw e on
  ]

module _ {heap : ℕ → Option Object} {registry : ℕ → List ℕ} {retired : List ℕ} (a : ℕ)
    (t : Table heap registry retired) where
  -- The object itself is on no chain any more.
  gone : (c : ℕ) → On a (chains registry a c) → ⊥
  gone c on = elim (Bool-cases (c == registry_bucket a)) [
    | inl e ↦
        not-On-unlink a (registry (registry_bucket a)) (t.distinct (registry_bucket a)) (rw e at on)
    | inr e ↦ cc ((==_iff c (registry_bucket a)).1 (sym (t.linked c a (rw e at on)).bucket))
  ]

  chains-Distinct : (c : ℕ) → Distinct (chains registry a c)
  chains-Distinct c = elim (Bool-cases (c == registry_bucket a)) [
    | inl e ↦
        rw e (Distinct-unlink a (registry (registry_bucket a)) (t.distinct (registry_bucket a)))
    | inr e ↦ rw e (t.distinct c)
  ]

module _ (heap : ℕ → Option Object) (a : ℕ) where
  abbrev retired_heap : Object → ℕ → Option Object
  retired_heap o = update heap a (some (record o { active = false }))

module _ {heap : ℕ → Option Object} {registry : ℕ → List ℕ} {retired : List ℕ} (a : ℕ) where
  -- An object marked inactive, unlinked from its bucket's chain and put on the retired list. This
  -- holds also where the object was retired before.
  pub Table-retire :
      (o : Object)
      → heap a ≡ some o
      → Table heap registry retired
      → Table
          (update heap a (some (record o { active = false })))
          (update registry (registry_bucket a) (unlink a (registry (registry_bucket a))))
          (a ∷ retired)
  Table-retire o stored t = record {
    nonnull = others 0 (λ e. cc (ap heap e)) ∙ t.nonnull;
    headers = headers;
    linked = λ c b on.
        let k = t.linked c b (chains-On registry a c b on) in
        record {
          object = k.object;
          stored =
              others b (λ q. gone a t c (subst (λ x. On x (chains registry a c)) q on)) ∙ k.stored;
          live = k.live;
          bucket = k.bucket;
        };
    complete = complete;
    distinct = chains-Distinct a t;
    dead = dead;
  }
    where
      others : (b : ℕ) → b ≢ a → retired_heap heap a o b ≡ heap b
      others b q = update_ne heap a (some (record o { active = false })) b q

      here : (b : ℕ) → b ≡ a → retired_heap heap a o b ≡ some (record o { active = false })
      here b q = rw q (update_self heap a (some (record o { active = false })))

      headers :
          (b : ℕ) (p : Object)
          → retired_heap heap a o b ≡ some p
          → (p.raw_handle ≡ b) × (p.magic ≡ bridge_magic)
      headers b p e = elim (ℕ_discrete b a) [
        | yes q ↦
            let s = some_eq (sym (here b q) ∙ e) in
            let g = t.headers a o stored in
            (
              ap (λ (x : Object). x.raw_handle) (sym s) ∙ g.0 ∙ sym q,
              ap (λ (x : Object). x.magic) (sym s) ∙ g.1,
            )
        | no q ↦ t.headers b p (sym (others b q) ∙ e)
      ]

      complete :
          (b : ℕ) (p : Object)
          → retired_heap heap a o b ≡ some p
          → p.active ≡ true
          → On b (chains registry a (registry_bucket b))
      complete b p e l = elim (ℕ_discrete b a) [
        | yes q ↦ cc (ap (λ (x : Object). x.active) (some_eq (sym (here b q) ∙ e)))
        | no q ↦
            On-chains registry a (registry_bucket b) b q (t.complete b p (sym (others b q) ∙ e) l)
      ]

      dead : (b : ℕ) → On b (a ∷ retired) → Dead (retired_heap heap a o) b
      dead b on = elim (ℕ_discrete b a) [
        | yes q ↦ record { object = record o { active = false }; stored = here b q; stale = refl }
        | no q ↦ older q on
      ]
        where
          older : b ≢ a → On b (a ∷ retired) → Dead (retired_heap heap a o) b
          older q (inl e) = absurd (q e)
          older q (inr on') =
              let k = t.dead b on' in
              record { object = k.object; stored = others b q ∙ k.stored; stale = k.stale }
