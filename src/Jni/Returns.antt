-- ===== src/Jni/Returns.antt =====
-- The object that a call without any better answer returns, by the signature of the method.
use tasm2_nextos.Prelude.{
  ℕ, ◌+◌, ◌==◌, ◌||◌, Bool, Option, none, some, List, [], ◌∷◌, codes, length, same_text,
  if◌then◌else◌,
}
use tasm2_nextos.Jni.State.{Text, State, Memory}
use tasm2_nextos.Jni.Intern.{jni_object, jni_string}
use tasm2_nextos.Jni.Arrays.{pointer_size, new_array}

-- What stands behind the last `c`, as `strrchr` finds it.
unfoldable pub or_tail : Bool → List ℕ → Option (List ℕ) → Option (List ℕ)
or_tail here rest (some found) = some found
or_tail here rest none = if here then some rest else none

unfoldable pub after_last : ℕ → List ℕ → Option (List ℕ)
after_last c [] = none
after_last c (b ∷ rest) = or_tail (b == c) rest (after_last c rest)

-- What stands in front of the first `c`, as `strchr` finds it.
unfoldable pub prepend : ℕ → Option (List ℕ) → Option (List ℕ)
prepend b none = none
prepend b (some text) = some (b ∷ text)

unfoldable pub up_to : ℕ → List ℕ → Option (List ℕ)
up_to c [] = none
up_to c (b ∷ rest) = let found = prepend b (up_to c rest) in if b == c then some [] else found

-- The size of an element by the character behind `[`.
unfoldable pub element_size_of : List ℕ → ℕ
element_size_of [] = pointer_size
element_size_of (c ∷ rest) =
    if (c == b'Z') || (c == b'B')
    then 1
    else if (c == b'C') || (c == b'S')
    then 2
    else if (c == b'I') || (c == b'F')
    then 4
    else if (c == b'J') || (c == b'D')
    then 8
    else pointer_size

module _ (m : Memory) where
  -- An object of the class between `L` and `;`.
  unfoldable pub object_named : Option (List ℕ) → State → ℕ × State
  object_named none s = (0, s)
  object_named (some []) s = (0, s)
  object_named (some (c ∷ name)) s =
      if m.enough s (length (c ∷ name) + 1)
      then if same_text (c ∷ name) (codes "java/lang/String")
        then jni_string m (some []) s
        else jni_object m (some (c ∷ name)) s
      else (0, s)

  unfoldable pub object_of_type : Option (List ℕ) → State → ℕ × State
  object_of_type none s = (0, s)
  object_of_type (some []) s = (0, s)
  object_of_type (some (c ∷ rest)) s =
      if c == b'L'
      then object_named (up_to b';' rest) s
      else if c == b'['
      then new_array m (c ∷ rest) 0 (element_size_of rest) s
      else (0, s)

  -- `asm2_return_object_for_signature`
  unfoldable pub return_object : Text → State → ℕ × State
  return_object none s = (0, s)
  return_object (some signature) s = object_of_type (after_last b')' signature) s
