-- ===== src/Elf/Sections.antt =====
-- What `so_load` and the init array read of the sections.
use tasm2_nextos.Prelude.{
  ℕ, zero, suc, ◌+◌, ◌/◌, ◌%◌, ◌^◌, ◌==◌, ltb, Bool, true, false, ◌||◌, Option, none, some, List,
  [], ◌∷◌, if◌then◌else◌, same_text,
}

-- `Elf32_Shdr`, with the name that `sh_name` leads to
pub record Section : Type 0 where
  pub name : List ℕ
  pub sh_addr : ℕ
  pub sh_size : ℕ

-- ".dynsym", ".dynstr", ".init_array"
abbrev pub dynsym : List ℕ
dynsym = 46 ∷ 100 ∷ 121 ∷ 110 ∷ 115 ∷ 121 ∷ 109 ∷ []

abbrev pub dynstr : List ℕ
dynstr = 46 ∷ 100 ∷ 121 ∷ 110 ∷ 115 ∷ 116 ∷ 114 ∷ []

abbrev pub init_array : List ℕ
init_array = 46 ∷ 105 ∷ 110 ∷ 105 ∷ 116 ∷ 95 ∷ 97 ∷ 114 ∷ 114 ∷ 97 ∷ 121 ∷ []

-- `syms`, `num_syms` and `dynstrtab`
pub record DynamicTables : Type 0 where
  pub syms : Option ℕ
  pub num_syms : ℕ
  pub dynstrtab : Option ℕ

-- The loop over the sections: the last one of each name counts, and a symbol has 16 bytes.
unfoldable pub dynamic_tables : List Section → ℕ → DynamicTables → DynamicTables
dynamic_tables [] virtbase t = t
dynamic_tables (s ∷ sections) virtbase t = dynamic_tables sections virtbase (
    if same_text s.name dynsym
    then record t { syms = some ((virtbase + s.sh_addr) % 2 ^ 32); num_syms = s.sh_size / 16 }
    else if same_text s.name dynstr
    then record t { dynstrtab = some ((virtbase + s.sh_addr) % 2 ^ 32) }
    else t)

-- Whether `so_load` succeeds with the tables, and is not an error -2.
unfoldable pub tables_found : DynamicTables → Bool
tables_found t = elim t.syms [
  | none ↦ false
  | some a ↦ elim t.dynstrtab [ none ↦ false | some b ↦ true ]
]

-- `so_init_array_count`
unfoldable pub init_array_count : List Section → ℕ
init_array_count [] = 0
init_array_count (s ∷ sections) =
    if same_text s.name init_array then s.sh_size / 4 else init_array_count sections

-- The functions that the loop of `so_execute_init_array_limit` calls, of the words of the array.
unfoldable pub init_functions : ℕ → List ℕ → List ℕ
init_functions zero words = []
init_functions (suc limit) [] = []
init_functions (suc limit) (w ∷ words) =
    let rest = init_functions limit words in if w == 0 || w == 4294967295 then rest else w ∷ rest

-- The words of an array of `count` entries from an address on.
unfoldable pub words_at : ℕ → ℕ → (ℕ → ℕ) → List ℕ
words_at zero a memory = []
words_at (suc count) a memory = memory a ∷ words_at count (a + 4) memory

-- `so_execute_init_array_limit`: the result, and the functions that are called, of a memory that the
-- calls leave alone there
unfoldable pub execute_init_array_limit : ℕ → List Section → ℕ → (ℕ → ℕ) → ℕ × List ℕ
execute_init_array_limit limit [] virtbase memory = (0, [])
execute_init_array_limit limit (s ∷ sections) virtbase memory =
    if same_text s.name init_array
    then (let count = s.sh_size / 4 in
        let l = if ltb count limit then count else limit in
        (l, init_functions l (words_at count ((virtbase + s.sh_addr) % 2 ^ 32) memory)))
    else execute_init_array_limit limit sections virtbase memory
