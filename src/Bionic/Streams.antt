-- ===== src/Bionic/Streams.antt =====
-- The calls on FILE objects: taking a reference to the host's FILE, the call, and giving it back.
use tasm2_nextos.Prelude.{
  ℕ, ◌+◌, ◌-◌, ◌*◌, ◌/◌, ◌%◌, ◌==◌, Bool, ◌&&◌, ◌||◌, Option, none, some, if◌then◌else◌, inc32,
  update,
}
use tasm2_nextos.Bionic.Files.{
  file_open, Wrapper, Files, flag_eof, flag_error, set_wrapper, find_active_file,
}

-- The part of `asm2_acquire_stream` for a wrapper that was found: the host's FILE, and the wrapper.
unfoldable pub acquire_wrapper : Wrapper → Option (ℕ × Wrapper)
acquire_wrapper w =
    if w.state == file_open
    then elim w.host [
      | none ↦ none
      | some host ↦ some (host, record w { active_operations = inc32 w.active_operations })
    ]
    else none

-- The part of `asm2_release_stream` under the mutex.
unfoldable pub release_wrapper : Wrapper → Wrapper
release_wrapper w = record w {
  active_operations = if w.active_operations == 0 then 0 else w.active_operations - 1;
}

-- `struct asm2_stream_reference`: none (`EBADF`), one of the standard streams, or the host's FILE
-- with the address of the wrapper
pub data Reference : Type 0 where
  bad : Reference
  standard : ℕ → Reference
  opened : ℕ → ℕ → Reference

-- The standard streams are the three images of 84 bytes from `base` on: their numbers are 0, 1, 2.
unfoldable pub standard_stream : ℕ → ℕ → Option ℕ
standard_stream base stream =
    if stream == base
    then some 0
    else if stream == base + 84
    then some 1
    else if stream == base + 168
    then some 2
    else none

-- The wrapper at an address, with the result of taking a reference.
unfoldable pub acquire_at : ℕ → Option (ℕ × Wrapper) → Files → Reference × Files
acquire_at a none s = (bad, s)
acquire_at a (some (host, w)) s = (opened host a, set_wrapper a w s)

unfoldable pub acquire_found : Option ℕ → Files → Reference × Files
acquire_found none s = (bad, s)
acquire_found (some a) s = acquire_at a (acquire_wrapper (s.wrapper a)) s

-- The test for a standard stream, before what was found is looked at.
unfoldable pub acquire_either : Option ℕ → Option ℕ → Files → Reference × Files
acquire_either (some n) found s = (standard n, s)
acquire_either none found s = acquire_found found s

-- `asm2_acquire_stream`, with the address of `asm2_bionic_sF`
unfoldable pub acquire_stream : ℕ → ℕ → ℕ → Files → Reference × Files
acquire_stream fuel base stream s =
    acquire_either (standard_stream base stream) (find_active_file fuel stream s) s

-- `asm2_release_stream`
unfoldable pub release_stream : Reference → Files → Files
release_stream bad s = s
release_stream (standard n) s = s
release_stream (opened host a) s = set_wrapper a (release_wrapper (s.wrapper a)) s

-- The test of `asm2_apply_guest_cleared_flags` on the image's flags and the host's `feof` and
-- `ferror`: whether `clearerr` is called
unfoldable pub guest_cleared : ℕ → Bool → Bool → Bool
guest_cleared flags eof error =
    flags / flag_eof % 2 == 0 && eof || flags / flag_error % 2 == 0 && error

-- `asm2_sync_stream_flags`: the image's flags, with bits 5 and 6 as the host's
unfoldable pub sync_flags : ℕ → Bool → Bool → ℕ
sync_flags flags eof error =
    flags / 128 * 128
    + flags % 32
    + (if eof then flag_eof else 0)
    + (if error then flag_error else 0)

-- A FILE of the host: one of the standard streams, or one that it opened.
pub data HostFile : Type 0 where
  std : ℕ → HostFile
  handle : ℕ → HostFile

-- The host's `feof`, `ferror` and `clearerr`, on the state `W` of its FILEs.
pub record HostIo (W : Type 0) : Type 0 where
  pub eof : HostFile → W → Bool
  pub error : HostFile → W → Bool
  pub clear : HostFile → W → W

-- The registry, the flags of `asm2_bionic_sF`, and the state of the host's FILEs.
pub record Io (W : Type 0) : Type 0 where
  pub files : Files
  pub standard_flags : ℕ → ℕ
  pub world : W

module _ {W : Type 0} (h : HostIo W) where
  -- `asm2_apply_guest_cleared_flags` for a FILE and the flags of its image
  unfoldable pub apply_guest_cleared_flags : HostFile → ℕ → W → W
  apply_guest_cleared_flags file flags w =
      if guest_cleared flags (h.eof file w) (h.error file w) then h.clear file w else w

  -- A call on a standard stream: the flags, the call, and the flags again if they are synchronised.
  unfoldable pub on_standard : {A : Type 0} → Bool → (HostFile → W → A × W) → ℕ → Io W → A × Io W
  on_standard synced call n io =
      let w = apply_guest_cleared_flags (std n) (io.standard_flags n) io.world in
      let r = call (std n) w in
      let flags = sync_flags (io.standard_flags n) (h.eof (std n) r.1) (h.error (std n) r.1) in
      (
        r.0,
        record io {
          world = r.1;
          standard_flags = if synced then update io.standard_flags n flags else io.standard_flags;
        },
      )

  -- A call on the FILE of the wrapper at `a`, whose reference is given back after it.
  unfoldable pub on_wrapper : {A : Type 0} → Bool → (HostFile → W → A × W) → ℕ → ℕ → Io W → A × Io W
  on_wrapper synced call host a io =
      let v = io.files.wrapper a in
      let r = call (handle host) (apply_guest_cleared_flags (handle host) v.flags io.world) in
      let flags = sync_flags v.flags (h.eof (handle host) r.1) (h.error (handle host) r.1) in
      (
        r.0,
        record io {
          world = r.1;
          files =
              release_stream (opened host a)
                (set_wrapper a (record v { flags = if synced then flags else v.flags }) io.files);
        },
      )

  unfoldable pub on_reference :
      {A : Type 0} → Bool → A → (HostFile → W → A × W) → Reference → Io W → A × Io W
  on_reference synced wrong call bad io = (wrong, io)
  on_reference synced wrong call (standard n) io = on_standard synced call n io
  on_reference synced wrong call (opened host a) io = on_wrapper synced call host a io

  -- The calls on a stream: `wrong` is the result for one that cannot be acquired.
  unfoldable pub on_stream :
      {A : Type 0} → Bool → A → (HostFile → W → A × W) → ℕ → ℕ → ℕ → Io W → A × Io W
  on_stream synced wrong call fuel base stream io =
      let q = acquire_stream fuel base stream io.files in
      on_reference synced wrong call q.0 (record io { files = q.1 })
