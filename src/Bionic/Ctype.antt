-- ===== src/Bionic/Ctype.antt =====
-- The tables of characters and the standard streams' images that `asm2_bionic_init` fills.
use tasm2_nextos.Prelude.{ℕ, ◌+◌, ◌-◌, ◌==◌, Bool, not, ◌&&◌, ◌||◌, if◌then◌else◌}
use tasm2_nextos.Bionic.Files.{flag_read, flag_write}

-- The host's functions on characters.
pub record HostCtype : Type 0 where
  pub isupper : ℕ → Bool
  pub islower : ℕ → Bool
  pub isdigit : ℕ → Bool
  pub isspace : ℕ → Bool
  pub ispunct : ℕ → Bool
  pub iscntrl : ℕ → Bool
  pub isxdigit : ℕ → Bool
  pub tolower : ℕ → ℕ
  pub toupper : ℕ → ℕ

-- The flags of a character: each is a bit of its own.
unfoldable pub ctype_flags : HostCtype → ℕ → ℕ
ctype_flags h c =
    (if h.isupper c then 1 else 0)
    + (if h.islower c then 2 else 0)
    + (if h.isdigit c then 4 else 0)
    + (if h.isspace c then 8 else 0)
    + (if h.ispunct c then 16 else 0)
    + (if h.iscntrl c then 32 else 0)
    + (if h.isxdigit c && not (h.isdigit c) then 64 else 0)
    + (if c == 32 || c == 9 then 128 else 0)

-- `asm2_ctype_storage`; its first entry is that of EOF
unfoldable pub ctype_storage : HostCtype → ℕ → ℕ
ctype_storage h i = if i == 0 then 0 else ctype_flags h (i - 1)

-- `asm2_tolower_storage` and `asm2_toupper_storage`, as the 16 bits of their entries
unfoldable pub tolower_storage : HostCtype → ℕ → ℕ
tolower_storage h i = if i == 0 then 65535 else h.tolower (i - 1)

unfoldable pub toupper_storage : HostCtype → ℕ → ℕ
toupper_storage h i = if i == 0 then 65535 else h.toupper (i - 1)

-- The flags in the images of the three standard streams; stderr is unbuffered.
unfoldable pub init_standard_flags : ℕ → ℕ
init_standard_flags n = if n == 0 then flag_read else if n == 1 then flag_write else flag_write + 2
