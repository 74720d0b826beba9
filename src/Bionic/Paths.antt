-- ===== src/Bionic/Paths.antt =====
-- The translation of the game's paths to the host's and back. A text is the list of its characters,
-- without the 0 at the end, and no text here is as long as `INT_MAX`.
use tasm2_nextos.Prelude.{
  ℕ, ◌+◌, ◌-◌, ◌==◌, ltb, leb, Bool, true, not, ◌&&◌, Option, none, some, List, [], ◌∷◌, ◌++◌,
  if◌then◌else◌, length, take, drop,
}

-- `PATH_MAX`
abbrev pub path_max : ℕ
path_max = 4096

-- '/'
abbrev pub slash : ℕ
slash = 47

-- "/sdcard"
abbrev pub sdcard : List ℕ
sdcard = 47 ∷ 115 ∷ 100 ∷ 99 ∷ 97 ∷ 114 ∷ 100 ∷ []

-- "sdcard", "/mnt/sdcard", "/storage/sdcard0", "/storage/emulated/0"
abbrev pub bare_sdcard : List ℕ
bare_sdcard = 115 ∷ 100 ∷ 99 ∷ 97 ∷ 114 ∷ 100 ∷ []

abbrev pub mounted : List ℕ
mounted = 47 ∷ 109 ∷ 110 ∷ 116 ∷ 47 ∷ 115 ∷ 100 ∷ 99 ∷ 97 ∷ 114 ∷ 100 ∷ []

abbrev pub storage : List ℕ
storage =
    47 ∷ 115 ∷ 116 ∷ 111 ∷ 114 ∷ 97 ∷ 103 ∷ 101 ∷ 47 ∷ 115 ∷ 100 ∷ 99 ∷ 97 ∷ 114 ∷ 100 ∷ 48 ∷ []

abbrev pub emulated : List ℕ
emulated =
    47 ∷ 115 ∷ 116 ∷ 111 ∷ 114 ∷ 97 ∷ 103 ∷ 101 ∷ 47 ∷ 101 ∷ 109 ∷ 117 ∷ 108 ∷ 97 ∷ 116 ∷ 101 ∷ 100
    ∷ 47 ∷ 48 ∷ []

abbrev pub prefixes : List (List ℕ)
prefixes = sdcard ∷ bare_sdcard ∷ mounted ∷ storage ∷ emulated ∷ []

-- What follows a prefix, if the text has it: `strncmp` and the address after it.
unfoldable pub strip_prefix : List ℕ → List ℕ → Option (List ℕ)
strip_prefix [] text = some text
strip_prefix (c ∷ prefix) [] = none
strip_prefix (c ∷ prefix) (d ∷ text) = if c == d then strip_prefix prefix text else none

-- Whether a path may go on with the text after a whole name.
unfoldable pub ends_name : List ℕ → Bool
ends_name [] = true
ends_name (c ∷ rest) = c == slash

-- What follows a prefix, if a whole name ends there.
unfoldable pub whole_name : Option (List ℕ) → Option (List ℕ)
whole_name none = none
whole_name (some rest) = if ends_name rest then some rest else none

-- The path below a directory.
unfoldable pub below : List ℕ → List ℕ → Option (List ℕ)
below prefix path = whole_name (strip_prefix prefix path)

-- What `asm2_translate_path` returns: the path itself, the buffer with a text, or NULL with
-- `ENAMETOOLONG`.
pub data Translation : Type 0 where
  original : Translation
  rewritten : List ℕ → Translation
  too_long : Translation

-- `snprintf` of two texts into a buffer.
unfoldable pub print_path : ℕ → List ℕ → List ℕ → Translation
print_path buffer_size root rest =
    if leb buffer_size (length root + length rest) then too_long else rewritten (root ++ rest)

-- A round of the loop over the prefixes: what is below the prefix, or what the next rounds give.
unfoldable pub print_below : ℕ → List ℕ → Option (List ℕ) → Translation → Translation
print_below buffer_size root none next = next
print_below buffer_size root (some rest) next = print_path buffer_size root rest

unfoldable pub translate_with : List (List ℕ) → List ℕ → ℕ → List ℕ → Translation
translate_with [] root buffer_size path = original
translate_with (prefix ∷ others) root buffer_size path =
    print_below buffer_size root (below prefix path) (translate_with others root buffer_size path)

-- `asm2_translate_path` of a path that is not NULL, with `asm2_storage_root`
unfoldable pub translate_path : List ℕ → ℕ → List ℕ → Translation
translate_path [] buffer_size path = original
translate_path (c ∷ root) buffer_size path = translate_with prefixes (c ∷ root) buffer_size path

-- The path that a host function is called with.
unfoldable pub path_for_host : List ℕ → List ℕ → Option (List ℕ)
path_for_host root path = elim (translate_path root path_max path) [
  | original ↦ some path
  | rewritten text ↦ some text
  | too_long ↦ none
]

-- The functions that call the host's with the path, or fail with the value `wrong`: `asm2_access`,
-- `asm2_chdir`, `asm2_chmod`, `asm2_mkdir`, `asm2_open`, `asm2_opendir`, `asm2_remove`, `asm2_rmdir`,
-- `asm2_unlink` and `asm2_stat`. The host's function is a parameter.
unfoldable pub on_host {ℓ} : {A : Type ℓ} → List ℕ → A → (List ℕ → A) → List ℕ → A
on_host root wrong call path = elim (path_for_host root path) [
  | none ↦ wrong
  | some host_path ↦ call host_path
]

-- `asm2_rename`
unfoldable pub rename_path {ℓ} :
    {A : Type ℓ} → List ℕ → A → (List ℕ → List ℕ → A) → List ℕ → List ℕ → A
rename_path root wrong call old_path new_path =
    on_host root wrong (λ host_old. on_host root wrong (call host_old) new_path) old_path

-- The ends of `asm2_getcwd`: a text, or an error.
pub data Cwd : Type 0 where
  cwd : List ℕ → Cwd
  host_failure range_error argument_error : Cwd

-- The text below the root, in the game's storage.
unfoldable pub virtual_below : List ℕ → Option (List ℕ) → Option (List ℕ)
virtual_below host_path none = some host_path
virtual_below host_path (some rest) =
    if leb path_max (length sdcard + length rest) then none else some (sdcard ++ rest)

-- The directory as the game is to see it.
unfoldable pub virtual_path : List ℕ → List ℕ → Option (List ℕ)
virtual_path [] host_path = some host_path
virtual_path (c ∷ root) host_path = virtual_below host_path (below (c ∷ root) host_path)

-- `asm2_getcwd` with the host's directory; without a buffer, the text is a copy.
unfoldable pub getcwd : List ℕ → Option (List ℕ) → Bool → ℕ → Cwd
getcwd root none has_buffer size = host_failure
getcwd root (some host_path) has_buffer size = elim (virtual_path root host_path) [
  | none ↦ range_error
  | some result ↦
      if not has_buffer
      then (if size == 0 then cwd result else argument_error)
      else if ltb size (length result + 1)
      then range_error
      else cwd result
]

-- The six last characters of the first text, replaced by those of the second.
unfoldable pub copy_suffix : List ℕ → List ℕ → List ℕ
copy_suffix guest host =
    if leb 6 (length guest) && leb 6 (length host)
    then take (length guest - 6) guest ++ drop (length host - 6) host
    else guest

-- The template after the host's `mkstemp` of its translation.
unfoldable pub temporary_of : List ℕ → Option ℕ × List ℕ → Option ℕ × List ℕ
temporary_of template (none, made) = (none, template)
temporary_of template (some fd, made) = (some fd, copy_suffix template made)

unfoldable pub temporary_from :
    (List ℕ → Option ℕ × List ℕ) → List ℕ → Translation → Option ℕ × List ℕ
temporary_from mkstemp template too_long = (none, template)
temporary_from mkstemp template original = mkstemp template
temporary_from mkstemp template (rewritten text) = temporary_of template (mkstemp text)

-- `asm2_mkstemp` of a template that is not NULL: the descriptor, if there is one, and the template.
-- The host's `mkstemp` gives a descriptor and the text.
unfoldable pub make_temporary : List ℕ → (List ℕ → Option ℕ × List ℕ) → List ℕ → Option ℕ × List ℕ
make_temporary root mkstemp template =
    temporary_from mkstemp template (translate_path root path_max template)

-- `asm2_storage_root` after `asm2_bionic_init`; `none` is NULL
unfoldable pub init_storage_root : Option (List ℕ) → List ℕ
init_storage_root none = []
init_storage_root (some root) = if leb path_max (length root) then [] else root
