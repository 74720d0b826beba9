-- ===== src/Elf/Resolve.antt =====
-- `so_resolve` gives each import its own address, and counts those that have none.
use tasm2_nextos.Prelude.{
  ℕ, ◌+◌, ◌%◌, ◌^◌, ◌≡◌, ◌≢◌, refl, sym, ◌∙◌, subst, Bool, true, false, Option, none, some, List,
  [], ◌∷◌, if◌then◌else◌, All, update_self, update_ne, arith,
}
use tasm2_nextos.Elf.Symbols.{DynLibFunction}
use tasm2_nextos.Elf.Import.{looked_up, one_missing, Word, resolved-Word}
use tasm2_nextos.Elf.Relocate.{
  Rel, slot, is_import, resolved, Resolution, settle_import, resolve_one, resolve_rest,
}

-- The address of a relocation's word.
abbrev pub target : ℕ → Rel → ℕ
target virtbase r = (virtbase + r.r_offset) % 2 ^ 32

-- A round for the word at `a`: `b` is whether it is an import's, and `o` the lookup's result.
record Round (b : Bool) (o : Option ℕ) (taint : Bool) (a offset : ℕ) (s t : Resolution)
    : Type 0 where
  here : t.memory a ≡ (if b then looked_up taint offset (s.memory a) o else s.memory a)
  others : (c : ℕ) → c ≢ a → t.memory c ≡ s.memory c
  count : t.unresolved ≡ s.unresolved + (if b then one_missing o else 0)

settle_import-Round :
    (b : Bool) (o : Option ℕ) (taint : Bool) (a offset : ℕ) (s : Resolution)
    → Round b o taint a offset s (if b then settle_import taint a offset o s else s)
unfolding settle_import
settle_import-Round true (some v) taint a offset s = record {
  here = update_self s.memory a v;
  others = λ c h. update_ne s.memory a v c h;
  count = omega arith;
}
settle_import-Round true none true a offset s = record {
  here = update_self s.memory a offset;
  others = λ c h. update_ne s.memory a offset c h;
  count = refl;
}
settle_import-Round true none false a offset s = record {
  here = refl;
  others = λ c h. refl;
  count = refl;
}
settle_import-Round false o taint a offset s = record {
  here = refl;
  others = λ c h. refl;
  count = omega arith;
}

-- `virtbase`, the table, `dlsym` and `taint_missing_imports`.
module _ (virtbase : ℕ) (funcs : List DynLibFunction) (dlsym : List ℕ → Option ℕ)
    (taint : Bool) where
  -- The lookup of a relocation, where its word is still that of the memory.
  abbrev lookup : (ℕ → ℕ) → Rel → Option ℕ
  lookup memory r = resolved funcs dlsym r (memory (target virtbase r))

  -- The word that a relocation is to leave.
  abbrev final_word : (ℕ → ℕ) → Rel → ℕ
  final_word memory r =
      if is_import r
      then looked_up taint r.r_offset (memory (target virtbase r)) (lookup memory r)
      else memory (target virtbase r)

  -- The number of imports that neither the table nor `dlsym` has, and that are not weak.
  abbrev missing : (ℕ → ℕ) → List Rel → ℕ
  missing memory [] = 0
  missing memory (r ∷ rels) =
      (if is_import r then one_missing (lookup memory r) else 0) + missing memory rels

  -- The relocations of the list do not point to the word.
  abbrev pub IsElsewhere : ℕ → List Rel → Type 0
  IsElsewhere a rels = All (λ q. target virtbase q ≢ a) rels

  -- No two relocations point to the same word.
  abbrev pub IsApart : List Rel → Type 0
  IsApart [] = Unit
  IsApart (r ∷ rels) = IsElsewhere (target virtbase r) rels × IsApart rels

  -- Every relocation has what its lookup gave, and the other words are as before.
  record Reached (rels : List Rel) (memory : ℕ → ℕ) (unresolved : ℕ) (t : Resolution) : Type 0 where
    words : All (λ r. t.memory (target virtbase r) ≡ final_word memory r) rels
    others : (c : ℕ) → IsElsewhere c rels → t.memory c ≡ memory c
    count : t.unresolved ≡ unresolved + missing memory rels

  -- What depends only on words that two memories share.
  module _ (m n : ℕ → ℕ) where
    IsElsewhere-words :
        (a : ℕ) (rels : List Rel) (t : Resolution)
        → ((c : ℕ) → c ≢ a → n c ≡ m c)
        → IsElsewhere a rels
        → All (λ r. t.memory (target virtbase r) ≡ final_word n r) rels
        → All (λ r. t.memory (target virtbase r) ≡ final_word m r) rels
    IsElsewhere-words a [] t same e w = tt
    IsElsewhere-words a (r ∷ rels) t same e w = (
      subst
          (λ old. t.memory (target virtbase r) ≡ (
            if is_import r
            then looked_up taint r.r_offset old (resolved funcs dlsym r old)
            else old))
          (same (target virtbase r) e.0) w.0,
      IsElsewhere-words a rels t same e.1 w.1,
    )

    IsElsewhere-missing :
        (a : ℕ) (rels : List Rel)
        → ((c : ℕ) → c ≢ a → n c ≡ m c)
        → IsElsewhere a rels
        → missing n rels ≡ missing m rels
    IsElsewhere-missing a [] same e = refl
    IsElsewhere-missing a (r ∷ rels) same e =
        rw (same (target virtbase r) e.0, IsElsewhere-missing a rels same e.1) refl

  -- The words of the relocations after the loops, with the number of missing imports.
  abbrev pub Words : List Rel → (ℕ → ℕ) → (ℕ → ℕ) → ℕ → Type 0
  Words [] memory final n = n ≡ 0
  Words (r ∷ rels) memory final n =
      (k : ℕ) × (m : ℕ) × Word funcs dlsym taint r (memory (target virtbase r))
        (final (target virtbase r)) k
      × Words rels memory final m
      × (n ≡ k + m)

  -- Every relocation has its word, the missing imports are counted, and no other word has changed.
  pub record Settled (rels : List Rel) (memory : ℕ → ℕ) (unresolved : ℕ) (t : Resolution)
      : Type 0 where
    pub absent : ℕ
    pub words : Words rels memory t.memory absent
    pub others : (c : ℕ) → IsElsewhere c rels → t.memory c ≡ memory c
    pub count : t.unresolved ≡ unresolved + absent

  reached-Words :
      (rels : List Rel) (memory final : ℕ → ℕ)
      → All (λ r. final (target virtbase r) ≡ final_word memory r) rels
      → Words rels memory final (missing memory rels)
  reached-Words [] memory final w = refl
  reached-Words (r ∷ rels) memory final w = (
    (if is_import r then one_missing (lookup memory r) else 0),
    missing memory rels,
    subst
        (λ x.
          Word funcs dlsym taint r (memory (target virtbase r)) x
            (if is_import r then one_missing (lookup memory r) else 0))
        (sym w.0) (resolved-Word funcs dlsym taint r (memory (target virtbase r))),
    reached-Words rels memory final w.1,
    refl,
  )

  resolve_rest-Reached :
      (rels : List Rel) (s : Resolution)
      → IsApart rels
      → Reached rels s.memory s.unresolved (resolve_rest virtbase funcs dlsym taint rels s)
  unfolding resolve_rest resolve_one slot
  resolve_rest-Reached [] s e = record { words = tt; others = λ c h. refl; count = omega arith }
  resolve_rest-Reached (r ∷ rels) s e =
      let u = resolve_one virtbase funcs dlsym taint r s in
      let first : Round (is_import r) (lookup s.memory r) taint (target virtbase r) r.r_offset s u =
        settle_import-Round (is_import r) (lookup s.memory r) taint (target virtbase r) r.r_offset
          s in
      let later : Reached rels u.memory u.unresolved
          (resolve_rest virtbase funcs dlsym taint rels u) =
        resolve_rest-Reached rels u e.1 in
      record {
        words = (
          later.others (target virtbase r) e.0 ∙ first.here,
          IsElsewhere-words s.memory u.memory (target virtbase r) rels
              (resolve_rest virtbase funcs dlsym taint rels u) first.others e.0 later.words,
        );
        others = λ c h. later.others c h.1 ∙ first.others c (λ q. h.0 (sym q));
        count =
            later.count
            ∙ (omega (
              arith,
              first.count,
              IsElsewhere-missing s.memory u.memory (target virtbase r) rels first.others e.0,
            ));
      }

  -- With relocations to different words, `so_resolve` leaves in the word of each import the address
  -- of its own name: that of the first entry of the table with the name, or else that of `dlsym`,
  -- plus the word's old contents for `R_ARM_ABS32`. A weak symbol that neither has gets that addend
  -- alone. Any other is missing: its word is kept or marked, and it is counted. No other word
  -- changes, those of relocations by defined symbols or of other types included.
  pub resolve_rest-Settled :
      (rels : List Rel) (s : Resolution)
      → IsApart rels
      → Settled rels s.memory s.unresolved (resolve_rest virtbase funcs dlsym taint rels s)
  resolve_rest-Settled rels s e =
      let v = resolve_rest-Reached rels s e in
      record {
        absent = missing s.memory rels;
        words =
            reached-Words rels s.memory (resolve_rest virtbase funcs dlsym taint rels s).memory
              v.words;
        others = v.others;
        count = v.count;
      }
