-- ===== src/Bionic/Stdio.antt =====
-- The `asm2_f*` functions on FILE objects, over the host's functions.
use tasm2_nextos.Prelude.{ℕ, ◌==◌, Bool, true, false, Option, none, some, List, [], if◌then◌else◌}
use tasm2_nextos.Prelude.Int.{ℤ, pos, negsuc}
use tasm2_nextos.Bionic.Files.{Files, take_file_for_close, wrap_file}
use tasm2_nextos.Bionic.Paths.{path_for_host}
use tasm2_nextos.Bionic.Streams.{HostFile, std, HostIo, Io, standard_stream, on_stream}

-- `EOF`, and -1
abbrev pub end_of_file : ℤ
end_of_file = negsuc 0

-- `WEOF`
abbrev pub wide_end_of_file : ℕ
wide_end_of_file = 4294967295

-- The host's functions on a FILE.
pub record HostStdio (W : Type 0) : Type 0 where
  pub flags : HostIo W
  pub flush : HostFile → W → ℤ × W
  pub flush_all : W → ℤ × W
  pub close : ℕ → W → ℤ × W
  pub open_path : List ℕ → List ℕ → W → Option (ℕ × ℕ) × W
  pub open_descriptor : ℕ → List ℕ → W → Option ℕ × W
  pub gets : ℕ → HostFile → W → Option (List ℕ) × W
  pub print : List ℕ → HostFile → W → ℤ × W
  pub put_char : ℕ → HostFile → W → ℤ × W
  pub puts : List ℕ → HostFile → W → ℤ × W
  pub read : ℕ → ℕ → HostFile → W → (ℕ × List ℕ) × W
  pub write : List ℕ → ℕ → ℕ → HostFile → W → ℕ × W
  pub seek : ℤ → ℕ → HostFile → W → ℤ × W
  pub tell : HostFile → W → ℤ × W
  pub get_char : HostFile → W → ℤ × W
  pub get_wide : HostFile → W → ℕ × W
  pub put_wide : ℕ → HostFile → W → ℕ × W
  pub set_buffer : ℕ → ℕ → HostFile → W → ℤ × W
  pub unget_char : ℕ → HostFile → W → ℤ × W
  pub unget_wide : ℕ → HostFile → W → ℕ × W

-- `fuel` bounds the walks along the chains, and `base` is the address of `asm2_bionic_sF`.
module _ {W : Type 0} (h : HostStdio W) (fuel base : ℕ) where
  -- The host's `clearerr`, as a call with a result that is not used.
  unfoldable pub clear_call : HostFile → W → Bool × W
  clear_call file w = (true, h.flags.clear file w)

  unfoldable pub clearerr : ℕ → Io W → Bool × Io W
  clearerr stream io = on_stream h.flags true false clear_call fuel base stream io

  unfoldable pub fflush : ℕ → Io W → ℤ × Io W
  fflush stream io =
      if stream == 0
      then (let r = h.flush_all io.world in (r.0, record io { world = r.1 }))
      else on_stream h.flags true end_of_file h.flush fuel base stream io

  unfoldable pub fgets : ℕ → ℕ → Io W → Option (List ℕ) × Io W
  fgets size stream io = on_stream h.flags true none (h.gets size) fuel base stream io

  -- `asm2_fprintf` and `asm2_vfprintf`, of the text that is printed
  unfoldable pub fprintf : List ℕ → ℕ → Io W → ℤ × Io W
  fprintf text stream io = on_stream h.flags true (negsuc 0) (h.print text) fuel base stream io

  unfoldable pub vfprintf : List ℕ → ℕ → Io W → ℤ × Io W
  vfprintf text stream io = on_stream h.flags true (negsuc 0) (h.print text) fuel base stream io

  unfoldable pub fputc : ℕ → ℕ → Io W → ℤ × Io W
  fputc character stream io =
      on_stream h.flags true end_of_file (h.put_char character) fuel base stream io

  unfoldable pub putc : ℕ → ℕ → Io W → ℤ × Io W
  putc character stream io =
      on_stream h.flags true end_of_file (h.put_char character) fuel base stream io

  unfoldable pub fputs : List ℕ → ℕ → Io W → ℤ × Io W
  fputs text stream io = on_stream h.flags true end_of_file (h.puts text) fuel base stream io

  -- The count, and the data.
  unfoldable pub fread : ℕ → ℕ → ℕ → Io W → (ℕ × List ℕ) × Io W
  fread size count stream io =
      on_stream h.flags true (0, []) (h.read size count) fuel base stream io

  unfoldable pub fwrite : List ℕ → ℕ → ℕ → ℕ → Io W → ℕ × Io W
  fwrite data_bytes size count stream io =
      on_stream h.flags true 0 (h.write data_bytes size count) fuel base stream io

  unfoldable pub fseek : ℤ → ℕ → ℕ → Io W → ℤ × Io W
  fseek offset origin stream io =
      on_stream h.flags true (negsuc 0) (h.seek offset origin) fuel base stream io

  unfoldable pub fseeko : ℤ → ℕ → ℕ → Io W → ℤ × Io W
  fseeko offset origin stream io =
      on_stream h.flags true (negsuc 0) (h.seek offset origin) fuel base stream io

  unfoldable pub ftell : ℕ → Io W → ℤ × Io W
  ftell stream io = on_stream h.flags false (negsuc 0) h.tell fuel base stream io

  unfoldable pub ftello : ℕ → Io W → ℤ × Io W
  ftello stream io = on_stream h.flags false (negsuc 0) h.tell fuel base stream io

  unfoldable pub getc : ℕ → Io W → ℤ × Io W
  getc stream io = on_stream h.flags true end_of_file h.get_char fuel base stream io

  unfoldable pub getwc : ℕ → Io W → ℕ × Io W
  getwc stream io = on_stream h.flags true wide_end_of_file h.get_wide fuel base stream io

  unfoldable pub putwc : ℕ → ℕ → Io W → ℕ × Io W
  putwc character stream io =
      on_stream h.flags true wide_end_of_file (h.put_wide character) fuel base stream io

  unfoldable pub setvbuf : ℕ → ℕ → ℕ → Io W → ℤ × Io W
  setvbuf mode size stream io =
      on_stream h.flags true (negsuc 0) (h.set_buffer mode size) fuel base stream io

  unfoldable pub ungetc : ℕ → ℕ → Io W → ℤ × Io W
  ungetc character stream io =
      on_stream h.flags true end_of_file (h.unget_char character) fuel base stream io

  unfoldable pub ungetwc : ℕ → ℕ → Io W → ℕ × Io W
  ungetwc character stream io =
      on_stream h.flags true wide_end_of_file (h.unget_wide character) fuel base stream io

  -- The host's `fclose` of a FILE that was taken, or EOF.
  unfoldable pub close_taken : Option ℕ × Files → Io W → ℤ × Io W
  close_taken (none, s) io = (end_of_file, record io { files = s })
  close_taken (some host, s) io =
      let r = h.close host io.world in (r.0, record io { files = s; world = r.1 })

  -- `asm2_fclose` of a standard stream: stdin stays as it is, and the others are flushed.
  unfoldable pub close_standard : ℕ → Io W → ℤ × Io W
  close_standard n io =
      if n == 0
      then (pos 0, io)
      else let r = h.flush (std n) io.world in (r.0, record io { world = r.1 })

  unfoldable pub close_other : Option ℕ → ℕ → Io W → ℤ × Io W
  close_other (some n) stream io = close_standard n io
  close_other none stream io = close_taken (take_file_for_close fuel stream io.files) io

  -- `asm2_fclose`, when no other thread uses the stream
  unfoldable pub fclose : ℕ → Io W → ℤ × Io W
  fclose stream io = close_other (standard_stream base stream) stream io

  -- `asm2_wrap_file` of what the host opened, with the address from `calloc`
  unfoldable pub wrap_opened : Option ℕ → List ℕ → Option (ℕ × ℕ) → Io W → Option ℕ × Io W
  wrap_opened address mode none io = (none, io)
  wrap_opened none mode (some (host, fd)) io =
      (none, record io { world = (h.close host io.world).1 })
  wrap_opened (some a) mode (some (host, fd)) io =
      let r = wrap_file (some a) host (some mode) fd io.files in (r.0, record io { files = r.1 })

  unfoldable pub fopen_host : Option ℕ → List ℕ → Option (List ℕ) → Io W → Option ℕ × Io W
  fopen_host address mode none io = (none, io)
  fopen_host address mode (some path) io =
      let r = h.open_path path mode io.world in
      wrap_opened address mode r.0 (record io { world = r.1 })

  -- `asm2_fopen`, with the storage root
  unfoldable pub fopen : Option ℕ → List ℕ → List ℕ → List ℕ → Io W → Option ℕ × Io W
  fopen address root path mode io = fopen_host address mode (path_for_host root path) io

  unfoldable pub fdopen_host : Option ℕ → ℕ → List ℕ → Option ℕ → Io W → Option ℕ × Io W
  fdopen_host address fd mode none io = (none, io)
  fdopen_host address fd mode (some host) io = wrap_opened address mode (some (host, fd)) io

  -- `asm2_fdopen`
  unfoldable pub fdopen : Option ℕ → ℕ → List ℕ → Io W → Option ℕ × Io W
  fdopen address fd mode io =
      let r = h.open_descriptor fd mode io.world in
      fdopen_host address fd mode r.0 (record io { world = r.1 })
