-- ===== src/Input/Persist.antt =====
-- `persist_first_run_touch_state`: the state file is replaced by way of a temporary one. What the
-- system calls answer is a record, and the two files' texts are followed from call to call.
use tasm2_nextos.Prelude.{
  ℕ, ◌+◌, ◌==◌, ltb, ◌≡◌, ◌⊎◌, inl, inr, refl, ap, Bool, true, false, ◌&&◌, Option, none, some,
  List, [], ◌∷◌, if◌then◌else◌, length, take, take_all, All, arith,
}

-- The temporary file and the state file, where they exist.
pub record FileSystem : Type 0 where
  pub temporary : Option (List ℕ)
  pub target : Option (List ℕ)

-- Whether `open`, `fsync`, `close` and `rename` succeed, and how many bytes `write` reports; -1 is
-- `none`.
pub record Answers : Type 0 where
  pub opens : Bool
  pub writes : Option ℕ
  pub syncs : Bool
  pub closes : Bool
  pub renames : Bool

-- What a write leaves in the truncated file.
unfoldable pub written_text : Option ℕ → List ℕ → List ℕ
written_text none value = []
written_text (some n) value = take n value

-- Whether all was written.
unfoldable pub wrote_all : Option ℕ → List ℕ → Bool
wrote_all none value = false
wrote_all (some n) value = n == length value

-- The file system after `open`, after `write`, and after `rename` or `unlink`.
unfoldable pub opened_state : FileSystem → FileSystem
opened_state s = record s { temporary = some [] }

unfoldable pub written_state : Answers → List ℕ → FileSystem → FileSystem
written_state a value s = record s { temporary = some (written_text a.writes value) }

unfoldable pub saves : Answers → List ℕ → Bool
saves a value = wrote_all a.writes value && (a.syncs && a.closes && a.renames)

unfoldable pub final_state : Answers → List ℕ → FileSystem → FileSystem
final_state a value s =
    if saves a value
    then record { temporary = none; target = some (written_text a.writes value) }
    else record s { temporary = none }

-- Whether there is a path, and the temporary one fits into 4096 bytes with ".tmp".
unfoldable pub path_usable : Option (List ℕ) → Bool
path_usable none = false
path_usable (some path) = ltb 0 (length path) && ltb (length path + 4) 4096

-- The states after the system calls of `persist_first_run_touch_state`, in their order; `value` is
-- the text of the stage.
unfoldable pub persist_states : Option (List ℕ) → Answers → List ℕ → FileSystem → List FileSystem
persist_states path a value s =
    if path_usable path && a.opens
    then opened_state s ∷ written_state a value s ∷ final_state a value s ∷ []
    else []

-- The state that it leaves.
unfoldable pub persist : Option (List ℕ) → Answers → List ℕ → FileSystem → FileSystem
persist path a value s = if path_usable path && a.opens then final_state a value s else s

-- The state file is the one of before, or has the new text.
abbrev pub IsOldOrNew : FileSystem → List ℕ → FileSystem → Type 0
IsOldOrNew s value t = (t.target ≡ s.target) ⊎ (t.target ≡ some value)

wrote_all_text :
    (n : Option ℕ) (value : List ℕ) → wrote_all n value ≡ true → written_text n value ≡ value
unfolding wrote_all written_text
wrote_all_text none value e = absurd (ground arith)
wrote_all_text (some n) value e = take_all n value (ground (arith, e))

final_state-IsOldOrNew :
    (a : Answers) (value : List ℕ) (s : FileSystem) → IsOldOrNew s value (final_state a value s)
unfolding final_state saves
final_state-IsOldOrNew a value s =
    choose (wrote_all a.writes value) (a.syncs && a.closes && a.renames) refl
  where
    choose :
        (b c : Bool)
        → wrote_all a.writes value ≡ b
        → IsOldOrNew s value (
            if b && c
            then record { temporary = none; target = some (written_text a.writes value) }
            else record s { temporary = none })
    choose true true e = inr (ap some (wrote_all_text a.writes value e))
    choose true false e = inl refl
    choose false c e = inl refl

-- Wherever the process is stopped between two system calls, and whichever of them fail or write
-- only in part, the state file is the one of before, or holds the whole new text.
pub persist_states-IsOldOrNew :
    (path : Option (List ℕ)) (a : Answers) (value : List ℕ) (s : FileSystem)
    → All (IsOldOrNew s value) (persist_states path a value s)
unfolding persist_states opened_state written_state
persist_states-IsOldOrNew path a value s = choose (path_usable path && a.opens)
  where
    choose :
        (b : Bool)
        → All (IsOldOrNew s value) (
            if b then opened_state s ∷ written_state a value s ∷ final_state a value s ∷ [] else [])
    choose true = (inl refl, (inl refl, (final_state-IsOldOrNew a value s, tt)))
    choose false = tt
