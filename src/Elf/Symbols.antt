-- ===== src/Elf/Symbols.antt =====
-- The symbols of the library and of the import tables. A name is the text that its offset leads to.
use tasm2_nextos.Prelude.{
  ℕ, ◌+◌, ◌%◌, ◌^◌, ◌==◌, Bool, not, ◌&&◌, ◌||◌, Option, none, some, List, [], ◌∷◌, if◌then◌else◌,
  same_text,
}

-- `Elf32_Sym`; `is_named` is whether its offset of the name is not 0
pub record Symbol : Type 0 where
  pub st_name : List ℕ
  pub is_named : Bool
  pub st_value : ℕ
  pub st_shndx : ℕ
  pub st_bind : ℕ

-- `STB_GLOBAL`, `STB_WEAK`
abbrev pub stb_global : ℕ
stb_global = 1

abbrev pub stb_weak : ℕ
stb_weak = 2

-- `DynLibFunction`
pub record DynLibFunction : Type 0 where
  pub symbol : List ℕ
  pub func : ℕ

-- The address of a symbol in memory.
unfoldable pub symbol_address : ℕ → Symbol → ℕ
symbol_address virtbase s = (virtbase + s.st_value) % 2 ^ 32

-- The tests of `so_snapshot_symbols`.
unfoldable pub is_exported : Symbol → Bool
is_exported s =
    not (s.st_shndx == 0)
    && not (s.st_value == 0)
    && s.is_named
    && (s.st_bind == stb_global || s.st_bind == stb_weak)

-- `so_snapshot_symbols`, when `malloc` gives the table
unfoldable pub snapshot_symbols : ℕ → List Symbol → List DynLibFunction
snapshot_symbols virtbase [] = []
snapshot_symbols virtbase (s ∷ symbols) =
    let rest = snapshot_symbols virtbase symbols in
    if is_exported s
    then record { symbol = s.st_name; func = symbol_address virtbase s } ∷ rest
    else rest

-- `so_find_import`, and the loop over `funcs` of `so_resolve`: the address
unfoldable pub find_import : List DynLibFunction → List ℕ → Option ℕ
find_import [] name = none
find_import (f ∷ funcs) name =
    if same_text name f.symbol then some f.func else find_import funcs name

-- `so_find_addr` and `so_find_addr_rx`; `none` is the fatal error
unfoldable pub find_addr : ℕ → List Symbol → List ℕ → Option ℕ
find_addr virtbase [] name = none
find_addr virtbase (s ∷ symbols) name =
    if same_text s.st_name name
    then some (symbol_address virtbase s)
    else find_addr virtbase symbols name

-- `so_find_addr_safe`; `none` is 0
unfoldable pub find_addr_safe : ℕ → List Symbol → List ℕ → Option ℕ
find_addr_safe virtbase [] name = none
find_addr_safe virtbase (s ∷ symbols) name =
    if not (s.st_shndx == 0) && same_text s.st_name name
    then some (symbol_address virtbase s)
    else find_addr_safe virtbase symbols name
