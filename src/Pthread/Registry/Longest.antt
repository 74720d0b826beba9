-- ===== src/Pthread/Registry/Longest.antt =====
-- What `asm2_pthread_bridge_get_stats` reports as the longest bucket.
use tasm2_nextos.Prelude.{
  ℕ, zero, suc, ◌+◌, ◌%◌, ◌^◌, ◌≤◌, ◌<◌, ◌==◌, ltb, ◌≡◌, refl, ◌⊎◌, inl, inr, ◌∙◌, ap, List, [],
  ◌∷◌, arith, if◌then◌else◌, length, Bool-cases,
}
use tasm2_nextos.Pthread.State.{registry_buckets, State}
use tasm2_nextos.Pthread.Registry.{chain_length, longest_from, stats_locked}

chain_length-length :
    (len : ℕ) (chain : List ℕ)
    → len + length chain < 2 ^ 32
    → chain_length len chain ≡ len + length chain
unfolding chain_length
chain_length-length len [] h = ground arith
chain_length-length len (a ∷ chain) h =
    rw (small) (chain_length-length (len + 1) chain (ground arith) ∙ (ground arith))
  where
    small : (len + 1) % 2 ^ 32 ≡ len + 1
    small = ground arith

whole_chain : (chain : List ℕ) → length chain < 2 ^ 32 → chain_length 0 chain ≡ length chain
whole_chain chain h = chain_length-length 0 chain (omega (arith, h)) ∙ (omega arith)

module _ (registry : ℕ → List ℕ) where
  abbrev larger : ℕ → ℕ → ℕ
  larger bucket longest =
      if ltb longest (chain_length 0 (registry bucket))
      then chain_length 0 (registry bucket)
      else longest

  longest_from_ge : (left bucket longest : ℕ) → longest ≤ longest_from registry left bucket longest
  unfolding longest_from
  longest_from_ge zero bucket longest = ground arith
  longest_from_ge (suc left) bucket longest =
      ground (arith, longest_from_ge left (bucket + 1) (larger bucket longest))

  longest_from-upper :
      (left bucket longest b : ℕ)
      → bucket ≤ b
      → b < bucket + left
      → chain_length 0 (registry b) ≤ longest_from registry left bucket longest
  unfolding longest_from
  longest_from-upper zero bucket longest b lo hi = absurd (omega arith)
  longest_from-upper (suc left) bucket longest b lo hi = elim (Bool-cases (b == bucket)) [
    | inl e ↦ ground (arith, longest_from_ge left (bucket + 1) (larger bucket longest))
    | inr e ↦
        longest_from-upper left (bucket + 1) (larger bucket longest) b (ground arith) (ground arith)
  ]

  longest_from-reached :
      (left bucket longest : ℕ)
      → (longest_from registry left bucket longest ≡ longest)
        ⊎ ((b : ℕ) × (b < bucket + left)
            × (longest_from registry left bucket longest ≡ chain_length 0 (registry b)))
  unfolding longest_from
  longest_from-reached zero bucket longest = inl refl
  longest_from-reached (suc left) bucket longest =
      elim (longest_from-reached left (bucket + 1) (larger bucket longest)) [
        | inr (b, h, e) ↦ inr (b, omega arith, e)
        | inl e ↦ elim (Bool-cases (ltb longest (chain_length 0 (registry bucket)))) [
          | inl t ↦ inr (
            bucket,
            omega arith,
            e ∙ ap (λ c. if c then chain_length 0 (registry bucket) else longest) t,
          )
          | inr t ↦ inl (e ∙ ap (λ c. if c then chain_length 0 (registry bucket) else longest) t)
        ]
      ]

-- The statistics' longest bucket, if every chain is shorter than 2 ^ 32, is no shorter than any of
-- the 256 chains, and it is 0 or the length of one of them.
stats_locked_longest :
    {W : Type 0} (s : State W) (b : ℕ)
    → ((c : ℕ) → length (s.registry c) < 2 ^ 32)
    → b < registry_buckets
    → (length (s.registry b) ≤ (stats_locked s).longest_active_bucket)
      × (((stats_locked s).longest_active_bucket ≡ 0)
          ⊎ ((c : ℕ) × (c < registry_buckets)
              × ((stats_locked s).longest_active_bucket ≡ length (s.registry c))))
unfolding stats_locked
stats_locked_longest s b short h = (
  ground (
    arith,
    longest_from-upper s.registry registry_buckets 0 0 b (omega arith) (omega arith),
    whole_chain (s.registry b) (short b),
  ),
  elim (longest_from-reached s.registry registry_buckets 0 0) [
    | inl e ↦ inl e
    | inr (c, k, e) ↦ inr (c, omega arith, e ∙ whole_chain (s.registry c) (short c))
  ],
)
