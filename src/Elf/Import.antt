-- ===== src/Elf/Import.antt =====
-- What an import is to be bound to, told without the code of `so_resolve`, and that one lookup does.
use tasm2_nextos.Prelude.{
  ℕ, ◌+◌, ◌%◌, ◌^◌, ◌==◌, ◌≡◌, ◌≢◌, ◌⊎◌, inl, inr, refl, sym, subst, Bool, true, false, Option,
  none, some, List, [], ◌∷◌, if◌then◌else◌, All, arith, Bool-cases, ==_iff, same_text, same_text-eq,
  same_text_refl,
}
use tasm2_nextos.Elf.Symbols.{DynLibFunction, find_import, stb_weak}
use tasm2_nextos.Elf.Relocate.{
  Rel, r_arm_abs32, r_arm_glob_dat, r_arm_jump_slot, is_import, implicit_addend, first_found,
  resolved_to, resolved,
}

-- The word of an import after its lookup, where `old` was.
abbrev pub looked_up : Bool → ℕ → ℕ → Option ℕ → ℕ
looked_up taint offset old (some v) = v
looked_up taint offset old none = if taint then offset else old

abbrev pub one_missing : Option ℕ → ℕ
one_missing (some v) = 0
one_missing none = 1

-- A relocation of the three types for symbols, by a symbol that the library does not define.
abbrev pub IsImport : Rel → Type 0
IsImport r =
    ((r.r_type ≡ r_arm_abs32) ⊎ (r.r_type ≡ r_arm_glob_dat) ⊎ (r.r_type ≡ r_arm_jump_slot))
    × (r.sym.st_shndx ≡ 0)

-- The first entry of the table with the name has the address.
abbrev pub Defines : List DynLibFunction → List ℕ → ℕ → Type 0
Defines [] name v = ⊥
Defines (f ∷ funcs) name v =
    ((f.symbol ≡ name) × (f.func ≡ v)) ⊎ ((f.symbol ≢ name) × Defines funcs name v)

-- No entry has the name.
abbrev pub IsUndefined : List DynLibFunction → List ℕ → Type 0
IsUndefined funcs name = All (λ f. f.symbol ≢ name) funcs

-- The addend is the old word for `R_ARM_ABS32` alone.
abbrev pub IsAddend : Rel → ℕ → ℕ → Type 0
IsAddend r old d = ((r.r_type ≡ r_arm_abs32) × (d ≡ old)) ⊎ ((r.r_type ≢ r_arm_abs32) × (d ≡ 0))

module _ (funcs : List DynLibFunction) (dlsym : List ℕ → Option ℕ) where
  -- The address of a name: the table's, or `dlsym`'s for a name that the table does not have.
  abbrev pub HasAddress : List ℕ → ℕ → Type 0
  HasAddress name v = Defines funcs name v ⊎ (IsUndefined funcs name × (dlsym name ≡ some v))

  abbrev pub IsMissing : List ℕ → Type 0
  IsMissing name = IsUndefined funcs name × (dlsym name ≡ none)

  -- What a relocation's word is to be after it was `old`, and how many missing imports it counts for.
  pub data Word (taint : Bool) (r : Rel) (old : ℕ) : ℕ → ℕ → Type 0 where
    bound :
        (v d : ℕ)
        → IsImport r
        → HasAddress r.sym.st_name v
        → IsAddend r old d
        → Word taint r old ((v + d) % 2 ^ 32) 0
    weak :
        (d : ℕ)
        → IsImport r
        → IsMissing r.sym.st_name
        → r.sym.st_bind ≡ stb_weak
        → IsAddend r old d
        → Word taint r old d 0
    absent :
        IsImport r
        → IsMissing r.sym.st_name
        → r.sym.st_bind ≢ stb_weak
        → Word taint r old (if taint then r.r_offset else old) 1
    other : ¬ (IsImport r) → Word taint r old old 0

is_import_iff :
    (r : Rel) → (is_import r ≡ true → IsImport r) × (is_import r ≡ false → ¬ (IsImport r))
unfolding is_import
is_import_iff r = (λ e. (ground arith, ground arith), λ e i. ground arith)

addend_lem : (r : Rel) (old : ℕ) → IsAddend r old (implicit_addend r old)
unfolding implicit_addend
addend_lem r old = elim (Bool-cases (r.r_type == r_arm_abs32)) [
  | inl e ↦ inl ((==_iff _ _).0 e, rw e refl)
  | inr e ↦ inr (ground arith, rw e refl)
]

-- What the search of the table finds.
abbrev Found : List DynLibFunction → List ℕ → Option ℕ → Type 0
Found funcs name none = IsUndefined funcs name
Found funcs name (some v) = Defines funcs name v

skipped :
    (f : DynLibFunction) (funcs : List DynLibFunction) (name : List ℕ) (o : Option ℕ)
    → f.symbol ≢ name
    → Found funcs name o
    → Found (f ∷ funcs) name o
skipped f funcs name none n h = (n, h)
skipped f funcs name (some v) n h = inr (n, h)

find_import-Found :
    (funcs : List DynLibFunction) (name : List ℕ) → Found funcs name (find_import funcs name)
unfolding find_import
find_import-Found [] name = tt
find_import-Found (f ∷ funcs) name = elim (Bool-cases (same_text name f.symbol)) [
  | inl e ↦ rw e (inl (sym (same_text-eq name f.symbol e), refl))
  | inr e ↦ rw e (
      skipped f funcs name (find_import funcs name)
        (λ q. absurd (true_false (subst (λ x. same_text name x ≡ false) q e)))
        (find_import-Found funcs name))
]
  where
    true_false : same_text name name ≡ false → ⊥
    true_false h = cc (same_text_refl name)

module _ (funcs : List DynLibFunction) (dlsym : List ℕ → Option ℕ) (taint : Bool) (r : Rel)
    (old : ℕ) (i : IsImport r) where
  abbrev Bound : Option ℕ → Type 0
  Bound o = Word funcs dlsym taint r old (looked_up taint r.r_offset old o) (one_missing o)

  unbound :
      (b : Bool)
      → (r.sym.st_bind == stb_weak) ≡ b
      → IsMissing funcs dlsym r.sym.st_name
      → Bound (if b then some (implicit_addend r old) else none)
  unbound true e m = weak (implicit_addend r old) i m ((==_iff _ _).0 e) (addend_lem r old)
  unbound false e m = absent i m (ground arith)

  looked_up_lem :
      (o p : Option ℕ)
      → Found funcs r.sym.st_name o
      → dlsym r.sym.st_name ≡ p
      → Bound (resolved_to (first_found o p) (r.sym.st_bind == stb_weak) (implicit_addend r old))
  unfolding first_found resolved_to
  looked_up_lem (some v) p h e = bound v (implicit_addend r old) i (inl h) (addend_lem r old)
  looked_up_lem none (some v) h e =
      bound v (implicit_addend r old) i (inr (h, e)) (addend_lem r old)
  looked_up_lem none none h e = unbound (r.sym.st_bind == stb_weak) refl (h, e)

-- A lookup leaves the word that it should.
pub resolved-Word :
    (funcs : List DynLibFunction) (dlsym : List ℕ → Option ℕ) (taint : Bool) (r : Rel) (old : ℕ)
    → Word funcs dlsym taint r old
        (if is_import r then looked_up taint r.r_offset old (resolved funcs dlsym r old) else old)
        (if is_import r then one_missing (resolved funcs dlsym r old) else 0)
unfolding resolved
resolved-Word funcs dlsym taint r old = elim (Bool-cases (is_import r)) [
  | inl e ↦ rw e (
      looked_up_lem funcs dlsym taint r old ((is_import_iff r).0 e)
        (find_import funcs r.sym.st_name) (dlsym r.sym.st_name)
        (find_import-Found funcs r.sym.st_name) refl)
  | inr e ↦ rw e (other ((is_import_iff r).1 e))
]
