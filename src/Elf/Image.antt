-- ===== src/Elf/Image.antt =====
-- The headers of the library and the layout that `so_load` makes of them. An address is of 32 bits;
-- memory is a function from addresses to bytes.
use tasm2_nextos.Prelude.{
  ℕ, ◌+◌, ◌-◌, ◌*◌, ◌/◌, ◌%◌, ◌^◌, ◌==◌, ltb, leb, Bool, ◌&&◌, ◌||◌, Option, none, some, List, [],
  ◌∷◌, if◌then◌else◌, take, drop, update, sub32,
}

-- `Elf32_Phdr`
pub record ProgramHeader : Type 0 where
  pub p_type : ℕ
  pub p_offset : ℕ
  pub p_vaddr : ℕ
  pub p_filesz : ℕ
  pub p_memsz : ℕ
  pub p_flags : ℕ

-- The fields of `Elf32_Ehdr` that are tested.
pub record ElfHeader : Type 0 where
  pub magic_matches : Bool
  pub elf_class : ℕ
  pub e_machine : ℕ
  pub e_phoff : ℕ
  pub e_phnum : ℕ
  pub e_shoff : ℕ
  pub e_shnum : ℕ
  pub e_shstrndx : ℕ

-- `PT_LOAD`, `PT_ARM_EXIDX`
abbrev pub pt_load : ℕ
pt_load = 1

abbrev pub pt_arm_exidx : ℕ
pt_arm_exidx = 1879048193

-- `PF_X`, `PF_W`, `PF_R`, as bits of `p_flags`
unfoldable pub is_executable : ProgramHeader → Bool
is_executable p = p.p_flags % 2 == 1

unfoldable pub is_writable : ProgramHeader → Bool
is_writable p = p.p_flags / 2 % 2 == 1

unfoldable pub is_readable : ProgramHeader → Bool
is_readable p = p.p_flags / 4 % 2 == 1

-- The tests of `so_load` on the header, for a file of `so_size` bytes: `sizeof(Elf32_Phdr)` is 32 and
-- `sizeof(Elf32_Shdr)` is 40, and the sums wrap.
unfoldable pub header_valid : ElfHeader → ℕ → Bool
header_valid h so_size =
    h.magic_matches
    && h.elf_class == 1
    && h.e_machine == 40
    && leb ((h.e_phoff + h.e_phnum * 32) % 2 ^ 32) so_size
    && leb ((h.e_shoff + h.e_shnum * 40) % 2 ^ 32) so_size
    && ltb h.e_shstrndx h.e_shnum

-- The page of an address, and `ALIGN_MEM` to 4096.
unfoldable pub page_start : ℕ → ℕ
page_start a = a / 4096 * 4096

unfoldable pub page_end : ℕ → ℕ
page_end a = (a + 4095) % 2 ^ 32 / 4096 * 4096

-- The variables of the loop over the program headers.
pub record Scan : Type 0 where
  pub min_vaddr : ℕ
  pub max_vaddr : ℕ
  pub text_segment : Option ProgramHeader
  pub data_segment : Option ProgramHeader

-- `UINTPTR_MAX` for the minimum, and 0
abbrev pub first_scan : Scan
first_scan = record {
  min_vaddr = 4294967295;
  max_vaddr = 0;
  text_segment = none;
  data_segment = none;
}

-- The first segment of a kind.
unfoldable pub first_of : Bool → ProgramHeader → Option ProgramHeader → Option ProgramHeader
first_of matches p (some q) = some q
first_of matches p none = if matches then some p else none

-- The segment's end in memory, before the alignment.
unfoldable pub segment_end : ProgramHeader → ℕ
segment_end p = page_end ((p.p_vaddr + p.p_memsz) % 2 ^ 32)

-- The tests on a PT_LOAD segment.
unfoldable pub segment_valid : ProgramHeader → ℕ → Bool
segment_valid p so_size =
    leb p.p_filesz p.p_memsz
    && leb (p.p_offset + p.p_filesz) so_size
    && leb (page_start p.p_vaddr) (segment_end p)

-- The variables after a PT_LOAD segment.
unfoldable pub extend : ProgramHeader → Scan → Scan
extend p s = record {
  min_vaddr = if ltb (page_start p.p_vaddr) s.min_vaddr then page_start p.p_vaddr else s.min_vaddr;
  max_vaddr = if ltb s.max_vaddr (segment_end p) then segment_end p else s.max_vaddr;
  text_segment = first_of (is_executable p) p s.text_segment;
  data_segment = first_of (is_writable p) p s.data_segment;
}

-- The loop; `none` is an error.
unfoldable pub scan_segments : List ProgramHeader → ℕ → Scan → Option Scan
scan_segments [] so_size s = some s
scan_segments (p ∷ ps) so_size s =
    if p.p_type == pt_load
    then (if segment_valid p so_size then scan_segments ps so_size (extend p s) else none)
    else scan_segments ps so_size s

-- What `so_load` keeps: `load_min_vaddr`, `load_size`, `load_virtbase`, and the two segments.
pub record Layout : Type 0 where
  pub min_vaddr : ℕ
  pub load_size : ℕ
  pub virtbase : ℕ
  pub text_segment : ProgramHeader
  pub data_segment : ProgramHeader

-- The ends of `so_load` before it copies: an error with its negated code, or the layout.
pub data Planned : Type 0 where
  rejected : ℕ → Planned
  planned : Layout → Planned

-- The layout at `base`, which is not NULL.
unfoldable pub place : ℕ → ℕ → Scan → ProgramHeader → ProgramHeader → Planned
place base max_size s text data_segment =
    if leb s.max_vaddr s.min_vaddr
    then rejected 1
    else if ltb max_size (s.max_vaddr - s.min_vaddr)
    then rejected 3
    else if base == 0
    then rejected 1
    else planned (record {
      min_vaddr = s.min_vaddr;
      load_size = s.max_vaddr - s.min_vaddr;
      virtbase = sub32 base s.min_vaddr;
      text_segment = text;
      data_segment = data_segment;
    })

-- Both segments have to be there.
unfoldable pub place_segments : ℕ → ℕ → Scan → Option ProgramHeader → Option ProgramHeader → Planned
place_segments base max_size s (some text) (some d) = place base max_size s text d
place_segments base max_size s (some text) none = rejected 1
place_segments base max_size s none d = rejected 1

unfoldable pub plan_scanned : ℕ → ℕ → Option Scan → Planned
plan_scanned base max_size none = rejected 1
plan_scanned base max_size (some s) = place_segments base max_size s s.text_segment s.data_segment

-- `so_load` up to the copies, of a file that was read.
unfoldable pub plan_load : ElfHeader → List ProgramHeader → ℕ → ℕ → ℕ → Planned
plan_load h ps so_size base max_size =
    if header_valid h so_size
    then plan_scanned base max_size (scan_segments ps so_size first_scan)
    else rejected 1

-- `memcpy` of the bytes to an address.
unfoldable pub copy_bytes : ℕ → List ℕ → (ℕ → ℕ) → ℕ → ℕ
copy_bytes a [] memory = memory
copy_bytes a (b ∷ bytes) memory = copy_bytes (a + 1) bytes (update memory a b)

-- The loop that copies the segments of the file.
unfoldable pub copy_segments : List ProgramHeader → List ℕ → ℕ → (ℕ → ℕ) → ℕ → ℕ
copy_segments [] file virtbase memory = memory
copy_segments (p ∷ ps) file virtbase memory = copy_segments ps file virtbase (
    if p.p_type == pt_load
    then copy_bytes ((virtbase + p.p_vaddr) % 2 ^ 32) (take p.p_filesz (drop p.p_offset file))
        memory
    else memory)

-- The copy, after `memset` of the mapping to 0.
unfoldable pub load_image : List ProgramHeader → List ℕ → ℕ → Layout → (ℕ → ℕ) → ℕ → ℕ
load_image ps file base l memory =
    copy_segments ps file l.virtbase
      (λ a. if leb base a && ltb a (base + l.load_size) then 0 else memory a)

-- `so_guest_vma`; `none` is NULL
unfoldable pub guest_vma : Layout → ℕ → ℕ → Option ℕ
guest_vma l vma size =
    if l.virtbase == 0 || ltb vma l.min_vaddr
    then none
    else if ltb l.load_size (vma - l.min_vaddr) || ltb (l.load_size - (vma - l.min_vaddr)) size
    then none
    else some ((l.virtbase + vma) % 2 ^ 32)

-- The loop of `so_find_exidx`: the table, and its count.
unfoldable pub find_exidx_in : List ProgramHeader → ℕ → Option (ℕ × ℕ)
find_exidx_in [] virtbase = none
find_exidx_in (p ∷ ps) virtbase =
    if p.p_type == pt_arm_exidx
    then some ((virtbase + p.p_vaddr) % 2 ^ 32, p.p_memsz / 8)
    else find_exidx_in ps virtbase

-- `so_find_exidx`, for the mapping at `base`
unfoldable pub find_exidx : List ProgramHeader → ℕ → Layout → ℕ → Option (ℕ × ℕ)
find_exidx ps base l pc =
    if ltb pc base || leb ((base + l.load_size) % 2 ^ 32) pc
    then none
    else find_exidx_in ps l.virtbase

-- `round_up`, for a power of two
unfoldable pub round_up : ℕ → ℕ → ℕ
round_up x a = (x + a - 1) % 2 ^ 32 / a * a

-- The range that `protect_range` protects, for pages of `ps` bytes: its start and length
unfoldable pub protected_range : ℕ → ℕ → ℕ → ℕ × ℕ
protected_range ps addr len =
    (addr / ps * ps, round_up ((len + (addr - addr / ps * ps)) % 2 ^ 32) ps)

-- The bits `PROT_READ`, `PROT_WRITE`, `PROT_EXEC` that `so_finalize` gives a segment
unfoldable pub protection : ProgramHeader → ℕ
protection p =
    (if is_readable p then 1 else 0)
    + (if is_writable p then 2 else 0)
    + (if is_executable p then 4 else 0)

-- `hook_arm`: the words at even addresses for ARM code, and the halfwords for Thumb code, with the
-- address that each is written to
unfoldable pub hook_arm : ℕ → ℕ → List (ℕ × ℕ)
hook_arm addr dst =
    if addr == 0
    then []
    else if addr % 2 == 1
    then (addr - 1, 63711) ∷ (addr + 1, 61440) ∷ (addr + 3, dst) ∷ []
    else (addr, 3844075524) ∷ (addr + 4, dst) ∷ []
