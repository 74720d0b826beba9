-- ===== src/Jni/Natives/Records.antt =====
-- The list of records as a map from methods to functions, and how a store changes it.
use tasm2_nextos.Prelude.{
  ℕ, ◌+◌, ◌≤◌, ◌≡◌, ◌↔◌, refl, sym, ◌∙◌, subst, ◌&&◌, Bool, true, false, Option, none, some, List,
  [], ◌∷◌, length, same_text, same_text-eq, same_text_refl, arith, if◌then◌else◌,
}
use tasm2_nextos.Jni.State.{Native}
use tasm2_nextos.Jni.Natives.{names, find_record, store_function, is_set, find_function}
use tasm2_nextos.Jni.Keys.{text_equal-eq}

-- A method: class, name and signature.
abbrev pub Method : Type 0
Method = List ℕ × List ℕ × List ℕ

abbrev pub is_for : Method → Native → Bool
is_for k = names (some k.0) (some k.1) (some k.2)

abbrev pub same_method : Method → Method → Bool
same_method k q = same_text k.0 q.0 && same_text k.1 q.1 && same_text k.2 q.2

pub and_three : (a b c : Bool) → (a && b && c) ≡ true → (a ≡ true) × (b ≡ true) × (c ≡ true)
and_three a b c h = ground arith

is_for-inj : (k q : Method) (x : Native) → is_for k x ≡ true → is_for q x ≡ true → k ≡ q
unfolding names
is_for-inj k q x p r =
    let (a, b, c) = and_three _ _ _ p in
    let (a', b', c') = and_three _ _ _ r in
    let e0 : k.0 ≡ q.0 = text_equal-eq x.class_name k.0 q.0 a a' in
    let e1 : k.1 ≡ q.1 = text_equal-eq x.name k.1 q.1 b b' in
    let e2 : k.2 ≡ q.2 = text_equal-eq x.signature k.2 q.2 c c' in cc

pub same_method_iff : (k q : Method) → (same_method k q ≡ true) ↔ (k ≡ q)
same_method_iff k q = (
  λ h.
      let (a, b, c) = and_three _ _ _ h in
      let e0 : k.0 ≡ q.0 = same_text-eq k.0 q.0 a in
      let e1 : k.1 ≡ q.1 = same_text-eq k.1 q.1 b in
      let e2 : k.2 ≡ q.2 = same_text-eq k.2 q.2 c in cc,
  λ e.
      subst (λ x. same_method k x ≡ true) e
        (rw (same_text_refl k.0, same_text_refl k.1, same_text_refl k.2) refl),
)

pub is_for-record :
    (q : Method) (f : ℕ) (x : Native) → is_for q (record x { function = f }) ≡ is_for q x
unfolding names
is_for-record q f x = refl

-- At most one record is for the method.
abbrev pub AtMostOne : Method → List Native → Type 0
AtMostOne k [] = Unit
AtMostOne k (x ∷ xs) =
    (is_for k x ≡ true → find_record (some k.0) (some k.1) (some k.2) xs ≡ none) × AtMostOne k xs

abbrev pub lookup : Method → List Native → Option ℕ
lookup k = find_record (some k.0) (some k.1) (some k.2)

abbrev pub function_of : Method → List Native → ℕ
function_of k = find_function (some k.0) (some k.1) (some k.2)

abbrev pub stored : Method → ℕ → List Native → List Native
stored k = store_function (some k.0) (some k.1) (some k.2)

pub unused : (k : Method) (xs : List Native) → lookup k xs ≡ none → function_of k xs ≡ 0
unfolding find_record find_function
unused k [] e = refl
unused k (x ∷ xs) e = ground (arith, unused k xs)

pub function_of-stored :
    (k q : Method) (f old : ℕ) (xs : List Native)
    → AtMostOne k xs
    → lookup k xs ≡ some old
    → function_of q (stored k f xs) ≡ (if same_method k q then f else function_of q xs)
unfolding find_record find_function store_function
function_of-stored k q f old [] one e = cc
function_of-stored k q f old (x ∷ xs) one e = ground (
  arith,
  is_for-record q f x,
  is_for-inj k q x,
  same_method_iff k q,
  unused k xs,
  one.0,
  function_of-stored k q f old xs one.1,
)

unfoldable pub active : List Native → ℕ
active [] = 0
active (x ∷ xs) = (if is_set x.function then 1 else 0) + active xs

lookup-stored :
    (k q : Method) (f : ℕ) (xs : List Native) → lookup q xs ≡ none → lookup q (stored k f xs) ≡ none
unfolding find_record store_function
lookup-stored k q f [] e = refl
lookup-stored k q f (x ∷ xs) e = ground (arith, is_for-record q f x, lookup-stored k q f xs)

pub AtMostOne-stored :
    (k q : Method) (f : ℕ) (xs : List Native) → AtMostOne q xs → AtMostOne q (stored k f xs)
unfolding store_function
AtMostOne-stored k q f [] one = tt
AtMostOne-stored k q f (x ∷ xs) one = split (is_for k x) refl (AtMostOne-stored k q f xs one.1)
  where
    split :
        (b : Bool)
        → is_for k x ≡ b
        → AtMostOne q (stored k f xs)
        → AtMostOne q (if b then record x { function = f } ∷ xs else x ∷ stored k f xs)
    split true e later = (λ h. one.0 (sym (is_for-record q f x) ∙ h), one.1)
    split false e later = (λ h. lookup-stored k q f xs (one.0 h), later)

pub active-stored :
    (k : Method) (f old : ℕ) (xs : List Native)
    → lookup k xs ≡ some old
    → active (stored k f xs) + (if is_set old then 1 else 0)
      ≡ active xs + (if is_set f then 1 else 0)
unfolding find_record store_function active
active-stored k f old [] e = cc
active-stored k f old (x ∷ xs) e = ground (arith, active-stored k f old xs)

pub active-le : (xs : List Native) → active xs ≤ length xs
unfolding active
active-le [] = omega arith
active-le (x ∷ xs) = ground (arith, active-le xs)
