-- ===== src/Elf/Tests.antt =====
-- The theorems at a small library.
use tasm2_nextos.Prelude.{
  ℕ, ◌≡◌, inl, refl, true, false, Option, none, List, [], ◌∷◌, length, All, arith, replicate,
}
use tasm2_nextos.Elf.Image.{
  ProgramHeader, ElfHeader, Layout, planned, plan_load, load_image, header_valid, plan_scanned,
  place_segments, place, scan_segments, segment_valid, segment_end, page_start, page_end, extend,
  first_of, is_executable, is_writable,
}
use tasm2_nextos.Elf.Layout.{Fits}
use tasm2_nextos.Elf.Copy.{load_image_outside}
use tasm2_nextos.Elf.Symbols.{DynLibFunction}
use tasm2_nextos.Elf.Relocate.{Rel, slot, resolve_rest, Resolution}
use tasm2_nextos.Elf.Resolve.{IsApart, Settled, resolve_rest-Settled}

abbrev text_header : ProgramHeader
text_header = record {
  p_type = 1;
  p_offset = 0;
  p_vaddr = 0;
  p_filesz = 3;
  p_memsz = 3;
  p_flags = 5;
}

abbrev data_header : ProgramHeader
data_header = record {
  p_type = 1;
  p_offset = 1;
  p_vaddr = 8192;
  p_filesz = 2;
  p_memsz = 100;
  p_flags = 6;
}

abbrev headers : List ProgramHeader
headers = text_header ∷ data_header ∷ []

abbrev file_header : ElfHeader
file_header = record {
  magic_matches = true;
  elf_class = 1;
  e_machine = 40;
  e_phoff = 0;
  e_phnum = 0;
  e_shoff = 0;
  e_shnum = 0;
  e_shstrndx = 0;
}

abbrev tiny_header : ElfHeader
tiny_header = record file_header { e_shnum = 1 }

abbrev tiny_file : List ℕ
tiny_file = replicate 64 7

abbrev tiny_layout : Layout
tiny_layout = record {
  min_vaddr = 0;
  load_size = 12288;
  virtbase = 65536;
  text_segment = text_header;
  data_segment = data_header;
}

tiny_planned : plan_load tiny_header headers (length tiny_file) 65536 16384 ≡ planned tiny_layout
unfolding plan_load header_valid plan_scanned place_segments place scan_segments segment_valid
    segment_end page_start page_end extend first_of is_executable is_writable
tiny_planned = refl

headers_fit : All Fits headers
headers_fit = (record { below = omega arith }, (record { below = omega arith }, tt))

load_image_outside_example : load_image headers tiny_file 65536 tiny_layout (λ a. 9) 60000 ≡ 9
load_image_outside_example =
    load_image_outside tiny_header headers tiny_file 65536 16384 tiny_layout (λ a. 9) 60000
      headers_fit tiny_planned (omega arith) (omega arith) (inl (omega arith))

-- An import by the name "f".
abbrev import_of : ℕ → Rel
import_of offset = record {
  r_offset = offset;
  sym = record { st_name = 102 ∷ []; is_named = true; st_value = 0; st_shndx = 0; st_bind = 1 };
  r_type = 22;
}

abbrev imports : List Rel
imports = import_of 4 ∷ import_of 8 ∷ []

abbrev table : List DynLibFunction
table = record { symbol = 102 ∷ []; func = 4660 } ∷ []

abbrev no_dlsym : List ℕ → Option ℕ
no_dlsym name = none

imports-IsApart : IsApart 65536 table no_dlsym false imports
unfolding slot
imports-IsApart = (((λ e. absurd (omega arith)), tt), (tt, tt))

abbrev untouched : Resolution
untouched = record { memory = λ a. 0; unresolved = 0 }

resolve_rest-Settled_example :
    Settled 65536 table no_dlsym false imports
      (λ a. 0)
      0
      (resolve_rest 65536 table no_dlsym false imports untouched)
resolve_rest-Settled_example =
    resolve_rest-Settled 65536 table no_dlsym false imports untouched imports-IsApart
