-- ===== src/Elf/Relocate.antt =====
-- `so_relocate` and `so_resolve`. Memory is a function from addresses to words here: no two
-- relocations overlap in part.
use tasm2_nextos.Prelude.{
  ℕ, ◌+◌, ◌%◌, ◌^◌, ◌==◌, Bool, ◌&&◌, ◌||◌, Option, none, some, List, [], ◌∷◌, ◌++◌, if◌then◌else◌,
  same_text, update,
}
use tasm2_nextos.Elf.Symbols.{Symbol, DynLibFunction, stb_weak, symbol_address, find_import}

-- `Elf32_Rel`, with the symbol that `r_info` leads to
pub record Rel : Type 0 where
  pub r_offset : ℕ
  pub sym : Symbol
  pub r_type : ℕ

-- `R_ARM_ABS32`, `R_ARM_GLOB_DAT`, `R_ARM_JUMP_SLOT`, `R_ARM_RELATIVE`
abbrev pub r_arm_abs32 : ℕ
r_arm_abs32 = 2

abbrev pub r_arm_glob_dat : ℕ
r_arm_glob_dat = 21

abbrev pub r_arm_jump_slot : ℕ
r_arm_jump_slot = 22

abbrev pub r_arm_relative : ℕ
r_arm_relative = 23

-- A section's name, and its relocations, if it has such.
pub record RelSection : Type 0 where
  pub name : List ℕ
  pub rels : List Rel

-- ".rel.dyn", ".rel.plt"
abbrev pub rel_dyn : List ℕ
rel_dyn = 46 ∷ 114 ∷ 101 ∷ 108 ∷ 46 ∷ 100 ∷ 121 ∷ 110 ∷ []

abbrev pub rel_plt : List ℕ
rel_plt = 46 ∷ 114 ∷ 101 ∷ 108 ∷ 46 ∷ 112 ∷ 108 ∷ 116 ∷ []

-- The relocations in the order of the two nested loops.
unfoldable pub all_rels : List RelSection → List Rel
all_rels [] = []
all_rels (s ∷ sections) =
    let rest = all_rels sections in
    if same_text s.name rel_dyn || same_text s.name rel_plt then s.rels ++ rest else rest

-- Where a relocation points to.
unfoldable pub slot : ℕ → Rel → ℕ
slot virtbase r = (virtbase + r.r_offset) % 2 ^ 32

-- What `so_relocate` writes to the word that holds `old`; `none` is the fatal error
unfoldable pub relocated : ℕ → Rel → ℕ → Option ℕ
relocated virtbase r old =
    if r.r_type == r_arm_abs32
    then (if r.sym.st_shndx == 0
        then some old
        else some ((symbol_address virtbase r.sym + old) % 2 ^ 32))
    else if r.r_type == r_arm_relative
    then some ((virtbase + old) % 2 ^ 32)
    else if r.r_type == r_arm_glob_dat || r.r_type == r_arm_jump_slot
    then (if r.sym.st_shndx == 0 then some old else some (symbol_address virtbase r.sym))
    else none

-- A word that is written, if there is one.
unfoldable pub write_word : ℕ → Option ℕ → (ℕ → ℕ) → Option (ℕ → ℕ)
write_word a none memory = none
write_word a (some v) memory = some (update memory a v)

-- `so_relocate` of the relocations from one on
unfoldable pub relocate_rest : ℕ → List Rel → Option (ℕ → ℕ) → Option (ℕ → ℕ)
relocate_rest virtbase [] memory = memory
relocate_rest virtbase (r ∷ rels) none = none
relocate_rest virtbase (r ∷ rels) (some memory) =
    relocate_rest virtbase rels
      (write_word (slot virtbase r) (relocated virtbase r (memory (slot virtbase r))) memory)

-- `so_relocate`
unfoldable pub relocate : ℕ → List RelSection → (ℕ → ℕ) → Option (ℕ → ℕ)
relocate virtbase sections memory = relocate_rest virtbase (all_rels sections) (some memory)

-- Whether `so_resolve` looks at a relocation.
unfoldable pub is_import : Rel → Bool
is_import r =
    (r.r_type == r_arm_glob_dat || r.r_type == r_arm_jump_slot || r.r_type == r_arm_abs32)
    && r.sym.st_shndx == 0

-- `addend`
unfoldable pub implicit_addend : Rel → ℕ → ℕ
implicit_addend r old = if r.r_type == r_arm_abs32 then old else 0

-- The two lookups of a name: the table comes before `dlsym`, which is a parameter.
unfoldable pub first_found : Option ℕ → Option ℕ → Option ℕ
first_found (some a) b = some a
first_found none b = b

-- The address with the addend, or the addend alone for a weak symbol.
unfoldable pub resolved_to : Option ℕ → Bool → ℕ → Option ℕ
resolved_to (some a) is_weak addend = some ((a + addend) % 2 ^ 32)
resolved_to none is_weak addend = if is_weak then some addend else none

-- What `so_resolve` writes; `none` is an unresolved import.
unfoldable pub resolved : List DynLibFunction → (List ℕ → Option ℕ) → Rel → ℕ → Option ℕ
resolved funcs dlsym r old =
    resolved_to (first_found (find_import funcs r.sym.st_name) (dlsym r.sym.st_name))
      (r.sym.st_bind == stb_weak) (implicit_addend r old)

-- The memory, and `unresolved`.
pub record Resolution : Type 0 where
  pub memory : ℕ → ℕ
  pub unresolved : ℕ

-- An import, after its lookup; one that is not found is marked by its offset, if that is wanted.
unfoldable pub settle_import : Bool → ℕ → ℕ → Option ℕ → Resolution → Resolution
settle_import taint a offset (some v) s = record s { memory = update s.memory a v }
settle_import taint a offset none s = record {
  memory = if taint then update s.memory a offset else s.memory;
  unresolved = s.unresolved + 1;
}

-- One round of the loops.
unfoldable pub resolve_one :
    ℕ → List DynLibFunction → (List ℕ → Option ℕ) → Bool → Rel → Resolution → Resolution
resolve_one virtbase funcs dlsym taint r s =
    if is_import r
    then settle_import taint (slot virtbase r) r.r_offset
        (resolved funcs dlsym r (s.memory (slot virtbase r))) s
    else s

unfoldable pub resolve_rest :
    ℕ → List DynLibFunction → (List ℕ → Option ℕ) → Bool → List Rel → Resolution → Resolution
resolve_rest virtbase funcs dlsym taint [] s = s
resolve_rest virtbase funcs dlsym taint (r ∷ rels) s =
    resolve_rest virtbase funcs dlsym taint rels (resolve_one virtbase funcs dlsym taint r s)

-- `so_resolve`
unfoldable pub resolve :
    ℕ → List DynLibFunction → (List ℕ → Option ℕ) → Bool → List RelSection → (ℕ → ℕ) → Resolution
resolve virtbase funcs dlsym taint sections memory =
    resolve_rest virtbase funcs dlsym taint (all_rels sections)
      (record { memory = memory; unresolved = 0 })

-- The loop of `so_find_rel_addr` and `so_find_rel_addr_safe`: where the name's slot is.
unfoldable pub find_rel_in : ℕ → List Rel → List ℕ → Option ℕ
find_rel_in virtbase [] name = none
find_rel_in virtbase (r ∷ rels) name =
    if (r.r_type == r_arm_glob_dat || r.r_type == r_arm_jump_slot || r.r_type == r_arm_abs32)
      && same_text r.sym.st_name name
    then some (slot virtbase r)
    else find_rel_in virtbase rels name

unfoldable pub find_rel_addr : ℕ → List RelSection → List ℕ → Option ℕ
find_rel_addr virtbase sections name = find_rel_in virtbase (all_rels sections) name
