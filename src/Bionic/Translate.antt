-- ===== src/Bionic/Translate.antt =====
-- What the translation of paths keeps: the room of the buffer, the storage root, and the way back.
use tasm2_nextos.Prelude.{
  ℕ, ◌+◌, ◌-◌, ◌<◌, leb, ◌≡◌, ◌⊎◌, inl, inr, refl, sym, ap, ◌∙◌, subst, Bool, true, false, Option,
  none, some, List, [], ◌∷◌, ◌++◌, append_assoc, append-nil, if◌then◌else◌, length, length-append,
  take, arith, ==_iff, take-append_le, take_all, take-append_length, drop-append_length,
}
use mathlib.Core.Option.{some-injective}
use tasm2_nextos.Bionic.Paths.{
  path_max, slash, sdcard, bare_sdcard, mounted, storage, emulated, prefixes, strip_prefix,
  ends_name, whole_name, below, print_below, virtual_below, temporary_of, temporary_from,
  Translation, original, rewritten, too_long, print_path, translate_with, translate_path,
  virtual_path, copy_suffix, make_temporary,
}

strip_prefix-append : (prefix rest : List ℕ) → strip_prefix prefix (prefix ++ rest) ≡ some rest
unfolding strip_prefix
strip_prefix-append [] rest = refl
strip_prefix-append (c ∷ prefix) rest = rw ((==_iff c c).1 refl) (strip_prefix-append prefix rest)

pub below-append :
    (prefix rest : List ℕ) → ends_name rest ≡ true → below prefix (prefix ++ rest) ≡ some rest
unfolding below whole_name
below-append prefix rest e = ap whole_name (strip_prefix-append prefix rest) ∙ rw e refl

-- Whether a translation keeps to the storage root and to the room of the buffer.
abbrev pub IsInside : List ℕ → ℕ → Translation → Type 0
IsInside root buffer_size original = Unit
IsInside root buffer_size too_long = Unit
IsInside root buffer_size (rewritten text) =
    (take (length root) text ≡ root) × (length text < buffer_size)

print_path-IsInside : (root rest : List ℕ) (n : ℕ) → IsInside root n (print_path n root rest)
unfolding print_path
print_path-IsInside root rest n = choose (leb n (length root + length rest)) refl
  where
    choose :
        (b : Bool)
        → leb n (length root + length rest) ≡ b
        → IsInside root n (if b then too_long else rewritten (root ++ rest))
    choose true e = tt
    choose false e = (
      take-append_le (length root) root rest (omega arith)
          ∙ take_all (length root) root (omega arith),
      (ground (arith, length-append root rest)),
    )

translate_with-IsInside :
    (ps : List (List ℕ)) (root path : List ℕ) (n : ℕ)
    → IsInside root n (translate_with ps root n path)
unfolding translate_with print_below
translate_with-IsInside [] root path n = tt
translate_with-IsInside (prefix ∷ ps) root path n =
    choose (below prefix path) (translate_with-IsInside ps root path n)
  where
    choose :
        (o : Option (List ℕ))
        → IsInside root n (translate_with ps root n path)
        → IsInside root n (print_below n root o (translate_with ps root n path))
    choose none next = next
    choose (some rest) next = print_path-IsInside root rest n

-- A path that is rewritten, whatever it is, starts with the storage root, and fits with its end
-- into the buffer.
translate_path-IsInside :
    (root path : List ℕ) (n : ℕ) → IsInside root n (translate_path root n path)
unfolding translate_path
translate_path-IsInside [] path n = tt
translate_path-IsInside (c ∷ root) path n = translate_with-IsInside prefixes (c ∷ root) path n

-- The directories that stand for the storage.
abbrev pub IsStorage : List ℕ → Type 0
IsStorage p = (p ≡ sdcard) ⊎ (p ≡ bare_sdcard) ⊎ (p ≡ mounted) ⊎ (p ≡ storage) ⊎ (p ≡ emulated)

-- The paths under a directory of the storage are rewritten.
module _ (c : ℕ) (root rest : List ℕ) (n : ℕ) (e : ends_name rest ≡ true)
    (h : length ((c ∷ root) ++ rest) < n) where
  abbrev Rewrites : List (List ℕ) → List ℕ → Type 0
  Rewrites ps prefix =
      translate_with ps (c ∷ root) n (prefix ++ rest) ≡ rewritten ((c ∷ root) ++ rest)

  hit : (prefix : List ℕ) (others : List (List ℕ)) → Rewrites (prefix ∷ others) prefix
  unfolding translate_with print_path print_below
  hit prefix others =
      ap (λ o. print_below n (c ∷ root) o (translate_with others (c ∷ root) n (prefix ++ rest)))
        (below-append prefix rest e)
      ∙ fits
    where
      short : leb n (length (c ∷ root) + length rest) ≡ false
      short = ground (arith, length-append (c ∷ root) rest)

      fits : print_path n (c ∷ root) rest ≡ rewritten ((c ∷ root) ++ rest)
      fits = rw (short) refl

  miss :
      (q prefix : List ℕ) (others : List (List ℕ))
      → below q (prefix ++ rest) ≡ none
      → Rewrites others prefix
      → Rewrites (q ∷ others) prefix
  unfolding translate_with print_below
  miss q prefix others apart later =
      ap (λ o. print_below n (c ∷ root) o (translate_with others (c ∷ root) n (prefix ++ rest)))
        apart
      ∙ later

  storage-Rewrites : (prefix : List ℕ) → IsStorage prefix → Rewrites prefixes prefix
  unfolding below whole_name strip_prefix
  storage-Rewrites prefix (inl p) = subst (Rewrites prefixes) (sym p) (hit sdcard _)
  storage-Rewrites prefix (inr (inl p)) =
      subst (Rewrites prefixes) (sym p) (miss sdcard bare_sdcard _ refl (hit bare_sdcard _))
  storage-Rewrites prefix (inr (inr (inl p))) =
      subst (Rewrites prefixes) (sym p)
        (miss sdcard mounted _ refl (miss bare_sdcard mounted _ refl (hit mounted _)))
  storage-Rewrites prefix (inr (inr (inr (inl p)))) = subst (Rewrites prefixes) (sym p) (
      miss sdcard storage _ refl
        (miss bare_sdcard storage _ refl (miss mounted storage _ refl (hit storage _))))
  storage-Rewrites prefix (inr (inr (inr (inr p)))) = subst (Rewrites prefixes) (sym p) (
      miss sdcard emulated _ refl (
        miss bare_sdcard emulated _ refl
          (miss mounted emulated _ refl (miss storage emulated _ refl (hit emulated _)))))

  storage_translates :
      (prefix : List ℕ)
      → IsStorage prefix
      → translate_path (c ∷ root) n (prefix ++ rest) ≡ rewritten ((c ∷ root) ++ rest)
  unfolding translate_path
  storage_translates prefix p = storage-Rewrites prefix p

short_virtual :
    (host_path rest v : List ℕ) → virtual_below host_path (some rest) ≡ some v → v ≡ sdcard ++ rest
unfolding virtual_below
short_virtual host_path rest v e = choose (leb path_max (length sdcard + length rest)) e
  where
    choose : (b : Bool) → (if b then none else some (sdcard ++ rest)) ≡ some v → v ≡ sdcard ++ rest
    choose true e = absurd (ground arith)
    choose false e = sym (some-injective (sdcard ++ rest) v e)

-- A directory of the host at or below the storage root, which the game is shown as `v`, is found
-- again when the game names `v`, if the host's name fits into `PATH_MAX`.
pub translate_path-virtual_path :
    (c : ℕ) (root rest v : List ℕ)
    → ends_name rest ≡ true
    → length ((c ∷ root) ++ rest) < path_max
    → virtual_path (c ∷ root) ((c ∷ root) ++ rest) ≡ some v
    → translate_path (c ∷ root) path_max v ≡ rewritten ((c ∷ root) ++ rest)
unfolding virtual_path
translate_path-virtual_path c root rest v e h shown =
    ap (translate_path (c ∷ root) path_max) (short_virtual ((c ∷ root) ++ rest) rest v known)
    ∙ storage_translates c root rest path_max e h sdcard (inl refl)
  where
    known : virtual_below ((c ∷ root) ++ rest) (some rest) ≡ some v
    known = sym (ap (virtual_below ((c ∷ root) ++ rest)) (below-append (c ∷ root) rest e)) ∙ shown

-- The letters at the end of the host's text go to the end of the guest's.
copy_suffix_end :
    (guest host six six' : List ℕ)
    → length six ≡ 6
    → length six' ≡ 6
    → copy_suffix (guest ++ six) (host ++ six') ≡ guest ++ six'
unfolding copy_suffix
copy_suffix_end guest host six six' e e' =
    rw
      (
        guest_long,
        host_long,
        guest_start,
        host_start,
        take-append_length 0 guest six,
        drop-append_length 0 host six',
      )
      (simp (append-nil))
  where
    guest_long : leb 6 (length (guest ++ six)) ≡ true
    guest_long = ground (arith, length-append guest six)

    host_long : leb 6 (length (host ++ six')) ≡ true
    host_long = ground (arith, length-append host six')

    guest_start : length (guest ++ six) - 6 ≡ length guest + 0
    guest_start = omega (arith, length-append guest six)

    host_start : length (host ++ six') - 6 ≡ length host + 0
    host_start = omega (arith, length-append host six')

-- If the host's `mkstemp` replaces the six last characters of the text and opens that file, then
-- the game's template gets the same six, and names the file that was made. The template is a path
-- below one of the five directories that stand for the storage, and its translation fits.
pub make_temporary_names :
    (prefix : List ℕ) (c : ℕ) (root stem six six' : List ℕ) (fd : ℕ)
    (mkstemp : List ℕ → Option ℕ × List ℕ)
    → IsStorage prefix
    → length six ≡ 6
    → length six' ≡ 6
    → length ((c ∷ root) ++ (slash ∷ stem ++ six)) < path_max
    → mkstemp ((c ∷ root) ++ (slash ∷ stem ++ six))
      ≡ (some fd, (c ∷ root) ++ (slash ∷ stem ++ six'))
    → (make_temporary (c ∷ root) mkstemp (prefix ++ (slash ∷ stem ++ six))
        ≡ (some fd, prefix ++ (slash ∷ stem ++ six')))
      × (translate_path (c ∷ root) path_max (prefix ++ (slash ∷ stem ++ six'))
          ≡ rewritten ((c ∷ root) ++ (slash ∷ stem ++ six')))
unfolding make_temporary temporary_from temporary_of ends_name
make_temporary_names prefix c root stem six six' fd mkstemp p e e' h made =
    (copied, storage_translates c root (slash ∷ stem ++ six') path_max refl fits prefix p)
  where
    stem_root : (c ∷ root) ++ (slash ∷ stem ++ six') ≡ ((c ∷ root) ++ slash ∷ stem) ++ six'
    stem_root = sym (append_assoc (c ∷ root) (slash ∷ stem) six')

    fits : length ((c ∷ root) ++ (slash ∷ stem ++ six')) < path_max
    fits = omega (
      arith,
      h,
      length-append (c ∷ root) (slash ∷ stem ++ six'),
      length-append (c ∷ root) (slash ∷ stem ++ six),
      length-append (slash ∷ stem) six,
      length-append (slash ∷ stem) six',
    )

    copied :
        make_temporary (c ∷ root) mkstemp (prefix ++ (slash ∷ stem ++ six))
        ≡ (some fd, prefix ++ (slash ∷ stem ++ six'))
    copied =
        ap (temporary_from mkstemp (prefix ++ (slash ∷ stem ++ six)))
          (storage_translates c root (slash ∷ stem ++ six) path_max refl h prefix p)
        ∙ ap (temporary_of (prefix ++ (slash ∷ stem ++ six))) made
        ∙ ap (λ t. (some fd, copy_suffix (prefix ++ (slash ∷ stem ++ six)) t)) stem_root
        ∙ ap (λ t. (some fd, copy_suffix t (((c ∷ root) ++ slash ∷ stem) ++ six')))
            (sym (append_assoc prefix (slash ∷ stem) six))
        ∙ ap (λ t. (some fd, t))
            (copy_suffix_end (prefix ++ slash ∷ stem) ((c ∷ root) ++ slash ∷ stem) six six' e e')
        ∙ ap (λ t. (some fd, t)) (append_assoc prefix (slash ∷ stem) six')
