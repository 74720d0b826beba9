-- ===== src/Bionic/Files.antt =====
-- The registry of the game's FILE objects: chains of wrappers that are linked by `hash_next`, as they
-- are in memory, an address of 0 being NULL. A wrapper's address is also that of its `guest` image.
-- The walks along a chain take fuel for their steps.
use tasm2_nextos.Prelude.{
  ℕ, zero, suc, ◌+◌, ◌-◌, ◌/◌, ◌%◌, ◌^◌, ◌==◌, ltb, leb, Bool, false, not, ◌||◌, Option, none, some,
  List, [], ◌∷◌, if◌then◌else◌, update, inc64, bit_xor,
}

-- `ASM2_FILE_OPEN`, `ASM2_FILE_CLOSING`, `ASM2_FILE_CLOSED`; 0 is memory that holds no file yet.
abbrev pub file_open : ℕ
file_open = 1

abbrev pub file_closing : ℕ
file_closing = 2

abbrev pub file_closed : ℕ
file_closed = 3

-- `struct asm2_file_wrapper`; `flags` and `descriptor` are the two fields of the image that are
-- written, and `host` the host's FILE
pub record Wrapper : Type 0 where
  pub flags : ℕ
  pub descriptor : ℕ
  pub host : Option ℕ
  pub base_flags : ℕ
  pub active_operations : ℕ
  pub state : ℕ
  pub hash_next : ℕ
  pub retired_next : ℕ

-- `asm2_active_files`, the memory of the wrappers, `asm2_retired_files`, and the counters
pub record Files : Type 0 where
  pub heads : ℕ → ℕ
  pub wrapper : ℕ → Wrapper
  pub retired : ℕ
  pub created_count : ℕ
  pub open_count : ℕ
  pub closed_count : ℕ

-- `ASM2_FILE_SRD`, `ASM2_FILE_SWR`, `ASM2_FILE_SRW`, `ASM2_FILE_SEOF`, `ASM2_FILE_SERR`, `ASM2_FILE_SAPP`
abbrev pub flag_read : ℕ
flag_read = 4

abbrev pub flag_write : ℕ
flag_write = 8

abbrev pub flag_both : ℕ
flag_both = 16

abbrev pub flag_eof : ℕ
flag_eof = 32

abbrev pub flag_error : ℕ
flag_error = 64

abbrev pub flag_append : ℕ
flag_append = 256

-- `strchr`, as a test
unfoldable pub has_char : ℕ → List ℕ → Bool
has_char c [] = false
has_char c (d ∷ text) = d == c || has_char c text

-- The flags of a mode without 'a'.
unfoldable pub access_flags : List ℕ → ℕ
access_flags [] = flag_write
access_flags (c ∷ mode) =
    if has_char 43 (c ∷ mode) then flag_both else if c == 114 then flag_read else flag_write

-- `asm2_file_mode_flags`; `none` is NULL
unfoldable pub file_mode_flags : Option (List ℕ) → ℕ
file_mode_flags none = 0
file_mode_flags (some mode) =
    if has_char 97 mode then access_flags mode + flag_append else access_flags mode

-- `asm2_file_image_set_descriptor`, of a descriptor that is not negative: the 16 bits
unfoldable pub image_descriptor : ℕ → ℕ
image_descriptor fd = if leb fd 32767 then fd else 65535

-- `asm2_file_bucket`
unfoldable pub file_bucket : ℕ → ℕ
file_bucket stream =
    let a = bit_xor stream (stream / 2 ^ 16) in let b = bit_xor a (a / 2 ^ 8) in b % 1024

-- The loop of `asm2_find_active_file_locked`, from the wrapper at an address.
unfoldable pub find_from : ℕ → ℕ → ℕ → Files → Option ℕ
find_from zero stream a s = none
find_from (suc fuel) stream a s =
    let rest = find_from fuel stream (s.wrapper a).hash_next s in
    if a == 0 then none else if a == stream then some a else rest

-- `asm2_find_active_file_locked`
unfoldable pub find_active_file : ℕ → ℕ → Files → Option ℕ
find_active_file fuel stream s = find_from fuel stream (s.heads (file_bucket stream)) s

-- The pointer `link` of `asm2_take_file_for_close`: to the head of a bucket, or to the `hash_next` of
-- a wrapper.
pub data Link : Type 0 where
  head_of : ℕ → Link
  next_of : ℕ → Link

-- `*link`
unfoldable pub load : Link → Files → ℕ
load (head_of bucket) s = s.heads bucket
load (next_of a) s = (s.wrapper a).hash_next

-- `*link = a`
unfoldable pub store : Link → ℕ → Files → Files
store (head_of bucket) a s = record s { heads = update s.heads bucket a }
store (next_of b) a s = record s {
  wrapper = update s.wrapper b (record (s.wrapper b) { hash_next = a });
}

-- The loop that moves `link`.
unfoldable pub locate : ℕ → ℕ → Link → Files → Link
locate zero stream link s = link
locate (suc fuel) stream link s =
    let rest = locate fuel stream (next_of (load link s)) s in
    if load link s == 0 || load link s == stream then link else rest

-- A change of the wrapper at an address.
unfoldable pub set_wrapper : ℕ → Wrapper → Files → Files
set_wrapper a w s = record s { wrapper = update s.wrapper a w }

-- The two changes of a wrapper's state by a close.
abbrev pub mark_closing : Wrapper → Wrapper
mark_closing w = record w { state = file_closing }

abbrev pub mark_closed : Wrapper → Wrapper
mark_closed w = record w { host = none; state = file_closed }

-- The test on the wrapper that the link points to; an open one is marked as closing.
unfoldable pub begin_at : Link → Files → Option (Link × Files)
begin_at link s =
    let a = load link s in
    if a == 0 || not ((s.wrapper a).state == file_open)
    then none
    else some (link, set_wrapper a (mark_closing (s.wrapper a)) s)

-- The first part of `asm2_take_file_for_close`, up to the wait: nothing is `EBADF`, and otherwise
-- the link is kept while the mutex is released in `pthread_cond_wait`.
unfoldable pub begin_close : ℕ → ℕ → Files → Option (Link × Files)
begin_close fuel stream s = begin_at (locate fuel stream (head_of (file_bucket stream)) s) s

-- The part after the wait, for the wrapper at `a`: `wrapper` and `link` are those of before.
unfoldable pub finish_close : Link → ℕ → Files → Option ℕ × Files
finish_close link a s =
    let w = s.wrapper a in
    let s1 = set_wrapper a (mark_closed w) s in
    let s2 = store link w.hash_next s1 in
    let s3 =
      set_wrapper a (record (s2.wrapper a) { hash_next = 0; retired_next = s2.retired }) s2 in
    (
      w.host,
      record s3 {
        retired = a;
        open_count = if s3.open_count == 0 then 0 else s3.open_count - 1;
        closed_count = inc64 s3.closed_count;
      },
    )

-- `asm2_take_file_for_close` when no operation is active, so that it does not wait.
unfoldable pub take_file_for_close : ℕ → ℕ → Files → Option ℕ × Files
take_file_for_close fuel stream s = elim (begin_close fuel stream s) [
  | none ↦ (none, s)
  | some p ↦ finish_close p.0 (load p.0 s) p.1
]

-- The wrapper that `asm2_wrap_file` makes for a host's FILE with the descriptor `fd`.
unfoldable pub new_wrapper : ℕ → Option (List ℕ) → ℕ → ℕ → Wrapper
new_wrapper host mode fd next = record {
  flags = file_mode_flags mode;
  descriptor = image_descriptor fd;
  host = some host;
  base_flags = file_mode_flags mode;
  active_operations = 0;
  state = file_open;
  hash_next = next;
  retired_next = 0;
}

-- `asm2_wrap_file` of a FILE that is not NULL, with the address that `calloc` gives; without one,
-- the FILE is closed and nothing changes.
unfoldable pub wrap_file : Option ℕ → ℕ → Option (List ℕ) → ℕ → Files → Option ℕ × Files
wrap_file none host mode fd s = (none, s)
wrap_file (some a) host mode fd s =
    let bucket = file_bucket a in
    let s1 = set_wrapper a (new_wrapper host mode fd (s.heads bucket)) s in
    (
      some a,
      record s1 {
        heads = update s1.heads bucket a;
        created_count = inc64 s1.created_count;
        open_count = inc64 s1.open_count;
      },
    )

-- The length of the chain from an address on.
unfoldable pub chain_length : ℕ → ℕ → Files → ℕ
chain_length zero a s = 0
chain_length (suc fuel) a s =
    let rest = chain_length fuel (s.wrapper a).hash_next s in if a == 0 then 0 else rest + 1

-- The loop over the buckets, for `count` buckets from `bucket` on.
unfoldable pub longest_bucket : ℕ → ℕ → ℕ → ℕ → Files → ℕ
longest_bucket fuel zero bucket longest s = longest
longest_bucket fuel (suc count) bucket longest s =
    longest_bucket fuel count (bucket + 1)
      (if ltb longest (chain_length fuel (s.heads bucket) s)
        then chain_length fuel (s.heads bucket) s
        else longest)
      s

-- `struct asm2_bionic_file_stats`
pub record FileStats : Type 0 where
  pub created : ℕ
  pub still_open : ℕ
  pub closed : ℕ
  pub longest_active_bucket : ℕ

-- `asm2_bionic_get_file_stats`
unfoldable pub get_file_stats : ℕ → Files → FileStats
get_file_stats fuel s = record {
  created = s.created_count;
  still_open = s.open_count;
  closed = s.closed_count;
  longest_active_bucket = longest_bucket fuel 1024 0 0 s;
}
