-- ===== src/Jni/Keys.antt =====
-- What the game interns: a key decides the bucket, the test of a handle and the handle that is made.
use tasm2_nextos.Prelude.{
  ℕ, ◌+◌, length, ◌≡◌, refl, sym, ap, ◌∙◌, ◌&&◌, Bool, true, false, none, some, List, codes,
  same_text-eq, same_text_refl, arith, if◌then◌else◌,
}
use tasm2_nextos.Jni.State.{
  Text, HandleKind, class_kind, object_kind, string_kind, method_kind, field_kind, is_kind, Handle,
  State, Memory, text_equal, text_or,
}
use tasm2_nextos.Jni.Handles.{duplicate, intern_bucket, blank}
use tasm2_nextos.Jni.Intern.{
  class_fits, string_fits, same_flag, id_fits, name_id, fill_string, intern,
}

-- A class or an object by its name, a string by its text, and a method or a field by class, name,
-- signature and whether it is static.
pub data Key : Type 0 where
  class_key object_key string_key : List ℕ → Key
  method_key field_key : List ℕ → List ℕ → List ℕ → Bool → Key

abbrev pub key_kind : Key → HandleKind
key_kind (class_key n) = class_kind
key_kind (object_key n) = object_kind
key_kind (string_key n) = string_kind
key_kind (method_key c n g b) = method_kind
key_kind (field_key c n g b) = field_kind

abbrev pub key_class : Key → List ℕ
key_class (class_key n) = n
key_class (object_key n) = n
key_class (string_key n) = codes "java/lang/String"
key_class (method_key c n g b) = c
key_class (field_key c n g b) = c

abbrev pub key_bucket : Key → ℕ
key_bucket (class_key n) = intern_bucket class_kind (some n) none none none false
key_bucket (object_key n) = intern_bucket object_kind (some n) none none none false
key_bucket (string_key n) = intern_bucket string_kind none none none (some n) false
key_bucket (method_key c n g b) = intern_bucket method_kind (some c) (some n) (some g) none b
key_bucket (field_key c n g b) = intern_bucket field_kind (some c) (some n) (some g) none b

abbrev pub key_fits : Key → Handle → Bool
key_fits (class_key n) = class_fits class_kind n
key_fits (object_key n) = class_fits object_kind n
key_fits (string_key n) = string_fits n
key_fits (method_key c n g b) = id_fits method_kind c (some n) (some g) b
key_fits (field_key c n g b) = id_fits field_kind c (some n) (some g) b

abbrev pub key_fill : Memory → State → Key → Handle → Handle
key_fill m s (class_key n) item = item
key_fill m s (object_key n) item = item
key_fill m s (string_key n) item = fill_string m s n item
key_fill m s (method_key c n g b) item = name_id m s (some n) (some g) b item
key_fill m s (field_key c n g b) item = name_id m s (some n) (some g) b item

abbrev pub intern_key : Memory → Key → State → ℕ × State
intern_key m k s =
    intern m (key_bucket k) (key_fits k) (key_kind k) (key_class k) (key_fill m s k) s

-- The handle that is made for a key.
abbrev pub made : Memory → State → Key → Handle
made m s k = key_fill m s k (blank (key_kind k) (duplicate m s (some (key_class k))))

-- The text that a C string equals.
pub text_equal-eq :
    (t : Text) (a b : List ℕ) → text_equal t (some a) ≡ true → text_equal t (some b) ≡ true → a ≡ b
unfolding text_equal
text_equal-eq none a b p q = cc
text_equal-eq (some t) a b p q = sym (same_text-eq t a p) ∙ same_text-eq t b q

-- What a copy that equals a text was copied from.
pub duplicate-eq :
    (m : Memory) (s : State) (t n : List ℕ)
    → text_equal (duplicate m s (some t)) (some n) ≡ true
    → t ≡ n
unfolding duplicate text_equal
duplicate-eq m s t n e = split (m.enough s _) e
  where
    split : (b : Bool) → text_equal (if b then some t else none) (some n) ≡ true → t ≡ n
    split true e = same_text-eq t n e
    split false e = cc

-- A copy equals its text while memory is not short.
pub copy_equal :
    (m : Memory) (s : State)
    → ((n : ℕ) → m.enough s n ≡ true)
    → (t : List ℕ) → text_equal (duplicate m s (some t)) (some t) ≡ true
unfolding duplicate text_equal
copy_equal m s all t = rw (all (length t + 1), same_text_refl t) refl

and_all :
    (a b c d e : Bool)
    → (a && b && c && d && e) ≡ true
    → (b ≡ true) × (c ≡ true) × (d ≡ true) × (e ≡ true)
and_all a b c d e h = ground arith

same_flag-eq : (a b : Bool) → same_flag a b ≡ true → a ≡ b
unfolding same_flag
same_flag-eq true b e = sym e
same_flag-eq false true e = cc
same_flag-eq false false e = refl

id_parts :
    (m : Memory) (s : State) (kind : HandleKind) (c c' n n' g g' : List ℕ) (b b' : Bool)
    → id_fits kind c
        (some n)
        (some g)
        b
        (name_id m s (some n') (some g') b' (blank kind (duplicate m s (some c'))))
      ≡ true
    → (c' ≡ c) × (n' ≡ n) × (g' ≡ g) × (b' ≡ b)
unfolding id_fits name_id blank text_or
id_parts m s kind c c' n n' g g' b b' e = (
  duplicate-eq m s c' c tests.1,
  duplicate-eq m s n' n tests.2,
  duplicate-eq m s g' g tests.3,
  same_flag-eq b' b tests.0,
)
  where
    tests :
        (same_flag b' b ≡ true)
        × (text_equal (duplicate m s (some c')) (some c) ≡ true)
        × (text_equal (duplicate m s (some n')) (some n) ≡ true)
        × (text_equal (duplicate m s (some g')) (some g) ≡ true)
    tests =
        and_all (is_kind kind kind) (same_flag b' b) (text_equal (duplicate m s (some c')) (some c))
          (text_equal (duplicate m s (some n')) (some n))
          (text_equal (duplicate m s (some g')) (some g)) e

-- A handle that was made for one key fits no other.
pub made_fits : (m : Memory) (s : State) (k k' : Key) → key_fits k (made m s k') ≡ true → k' ≡ k
unfolding class_fits string_fits id_fits name_id fill_string blank
made_fits m s (class_key n) (class_key n') e = ap class_key (duplicate-eq m s n' n e)
made_fits m s (object_key n) (object_key n') e = ap object_key (duplicate-eq m s n' n e)
made_fits m s (string_key n) (string_key n') e = ap string_key (duplicate-eq m s n' n e)
made_fits m s (method_key c n g b) (method_key c' n' g' b') e =
    let p : (c' ≡ c) × (n' ≡ n) × (g' ≡ g) × (b' ≡ b) =
      id_parts m s method_kind c c' n n' g g' b b' e in
    ground (arith, p)
made_fits m s (field_key c n g b) (field_key c' n' g' b') e =
    let p : (c' ≡ c) × (n' ≡ n) × (g' ≡ g) × (b' ≡ b) =
      id_parts m s field_kind c c' n n' g g' b b' e in
    ground (arith, p)
made_fits m s k k' e = cc
