-- ===== src/Bionic/Chain.antt =====
-- The chains of wrappers, as lists of addresses.
use tasm2_nextos.Prelude.{
  ℕ, zero, suc, ◌<◌, ◌==◌, ◌≡◌, ◌≢◌, refl, sym, ap, subst, false, Option, none, some, List, [], ◌∷◌,
  if◌then◌else◌, length, All, update, update_ne, arith, ==_iff,
}
use tasm2_nextos.Bionic.Files.{Files, Wrapper, find_from}

-- The chain from `a` on is the list: each wrapper links to the next, and the last to NULL.
abbrev pub IsChain : (ℕ → Wrapper) → ℕ → List ℕ → Type 0
IsChain m a [] = a ≡ 0
IsChain m a (x ∷ xs) = (a ≡ x) × (x ≢ 0) × IsChain m (m x).hash_next xs

-- An address that is not on the list.
abbrev pub IsOff : ℕ → List ℕ → Type 0
IsOff x xs = All (λ y. y ≢ x) xs

-- The first element of the list that is the address.
abbrev pub first_match : ℕ → List ℕ → Option ℕ
first_match x [] = none
first_match x (y ∷ ys) = if y == x then some y else first_match x ys

pub ==_ne : (a b : ℕ) → a ≢ b → (a == b) ≡ false
==_ne a b h = ground arith

pub first_match_off : (x : ℕ) (xs : List ℕ) → IsOff x xs → first_match x xs ≡ none
first_match_off x [] h = refl
first_match_off x (y ∷ ys) h = rw (==_ne y x h.0) (first_match_off x ys h.1)

-- The walk finds what the list has.
pub find_from_chain :
    (fuel x a : ℕ) (xs : List ℕ) (s : Files)
    → length xs < fuel
    → IsChain s.wrapper a xs
    → find_from fuel x a s ≡ first_match x xs
unfolding find_from
find_from_chain zero x a xs s l c = absurd (omega arith)
find_from_chain (suc fuel) x a [] s l c = rw ((==_iff a 0).1 c) refl
find_from_chain (suc fuel) x a (y ∷ ys) s l c =
    rw (c.0, ==_ne y 0 c.1)
      (ap (λ o. if y == x then some y else o)
        (find_from_chain fuel x (s.wrapper y).hash_next ys s (omega (arith, l)) c.2))

-- A change of links of other wrappers leaves a chain alone.
pub IsChain-frame :
    (m n : ℕ → Wrapper) (a : ℕ) (xs : List ℕ)
    → All (λ x. (n x).hash_next ≡ (m x).hash_next) xs
    → IsChain m a xs
    → IsChain n a xs
IsChain-frame m n a [] h c = c
IsChain-frame m n a (x ∷ xs) h c =
    (c.0, c.1, subst (λ z. IsChain n z xs) (sym h.0) (IsChain-frame m n (m x).hash_next xs h.1 c.2))

pub All-off_update :
    (m : ℕ → Wrapper) (b : ℕ) (w : Wrapper) (xs : List ℕ)
    → IsOff b xs
    → All (λ x. (update m b w x).hash_next ≡ (m x).hash_next) xs
All-off_update m b w [] h = tt
All-off_update m b w (x ∷ xs) h =
    (ap (λ v. v.hash_next) (update_ne m b w x h.0), All-off_update m b w xs h.1)

pub IsChain-update :
    (m : ℕ → Wrapper) (b : ℕ) (w : Wrapper) (a : ℕ) (xs : List ℕ)
    → IsOff b xs
    → IsChain m a xs
    → IsChain (update m b w) a xs
IsChain-update m b w a xs h c = IsChain-frame m (update m b w) a xs (All-off_update m b w xs h) c
