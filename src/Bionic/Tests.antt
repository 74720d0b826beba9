-- ===== src/Bionic/Tests.antt =====
-- The theorems at concrete paths, registries and masks.
use tasm2_nextos.Prelude.{
  ℕ, ◌≡◌, ◌<◌, ◌^◌, inr, refl, Bool, true, false, Option, none, some, List, [], ◌∷◌, ◌++◌,
  if◌then◌else◌, ◌==◌, arith,
}
use tasm2_nextos.Bionic.Paths.{
  slash, sdcard, emulated, path_max, rewritten, translate_path, virtual_path, virtual_below, below,
  whole_name, strip_prefix, ends_name, make_temporary,
}
use tasm2_nextos.Bionic.Translate.{translate_path-virtual_path, make_temporary_names}
use tasm2_nextos.Bionic.Files.{
  Files, file_open, file_closing, file_bucket, new_wrapper, find_active_file, begin_close, head_of,
  mark_closing,
}
use tasm2_nextos.Bionic.Chain.{first_match}
use tasm2_nextos.Bionic.Close.{
  find_active_file_lem, finish_close-wrap_file, waiting, ended, IsBucket,
}
use tasm2_nextos.Bionic.Streams.{HostIo, HostFile, Io, on_stream}
use tasm2_nextos.Bionic.Lifetime.{Session, IsNew, Reach, here, there, begin, Alive, Reach-Alive}
use tasm2_nextos.Bionic.Refused.{on_stream_stale}
use tasm2_nextos.Bionic.Abi.{mask_to_host, mask_to_guest}
use tasm2_nextos.Bionic.Signals.{bit, mask_to_guest-mask_to_host}

-- "/data", "/save"
abbrev data_root : List ℕ
data_root = 47 ∷ 100 ∷ 97 ∷ 116 ∷ 97 ∷ []

abbrev saves : List ℕ
saves = 47 ∷ 115 ∷ 97 ∷ 118 ∷ 101 ∷ []

saves_shown : virtual_path data_root (data_root ++ saves) ≡ some (sdcard ++ saves)
unfolding virtual_path virtual_below below whole_name strip_prefix ends_name
saves_shown = refl

saves_end : ends_name saves ≡ true
unfolding ends_name
saves_end = refl

translate_path-virtual_path_example :
    translate_path data_root path_max (sdcard ++ saves) ≡ rewritten (data_root ++ saves)
translate_path-virtual_path_example =
    translate_path-virtual_path 47 (100 ∷ 97 ∷ 116 ∷ 97 ∷ []) saves (sdcard ++ saves) saves_end
      (omega arith) saves_shown

abbrev xxxxxx : List ℕ
xxxxxx = 88 ∷ 88 ∷ 88 ∷ 88 ∷ 88 ∷ 88 ∷ []

abbrev abcdef : List ℕ
abcdef = 97 ∷ 98 ∷ 99 ∷ 100 ∷ 101 ∷ 102 ∷ []

abbrev host_mkstemp : List ℕ → Option ℕ × List ℕ
host_mkstemp text = (some 5, data_root ++ (slash ∷ abcdef))

make_temporary_names_example :
    (make_temporary data_root host_mkstemp (emulated ++ (slash ∷ xxxxxx))
      ≡ (some 5, emulated ++ (slash ∷ abcdef)))
    × (translate_path data_root path_max (emulated ++ (slash ∷ abcdef))
        ≡ rewritten (data_root ++ (slash ∷ abcdef)))
make_temporary_names_example =
    make_temporary_names emulated 47 (100 ∷ 97 ∷ 116 ∷ 97 ∷ []) [] xxxxxx abcdef 5 host_mkstemp
      (inr (inr (inr (inr refl)))) refl refl (omega arith) refl

-- One open file, at the address 1024 of bucket 4.
abbrev one_file : Files
one_file = record {
  heads = λ b. if b == 4 then 1024 else 0;
  wrapper = λ a. new_wrapper 3 none 5 0;
  retired = 0;
  created_count = 1;
  open_count = 1;
  closed_count = 0;
}

one_file-IsBucket : IsBucket one_file 1024 (1024 ∷ [])
unfolding file_bucket new_wrapper
one_file-IsBucket = (refl, (λ e. absurd (omega arith)), refl)

find_active_file_lem_example : find_active_file 2 1024 one_file ≡ first_match 1024 (1024 ∷ [])
find_active_file_lem_example =
    find_active_file_lem 2 1024 (1024 ∷ []) one_file (omega arith) one_file-IsBucket

same_bucket : file_bucket 2060 ≡ file_bucket 1024
unfolding file_bucket
same_bucket = refl

one_file_open : (one_file.wrapper 1024).state ≡ file_open
unfolding new_wrapper
one_file_open = refl

finish_close-wrap_file_example :
    (begin_close 1 1024 one_file
      ≡ some (head_of (file_bucket 1024), waiting 1024 2060 [] one_file 7 none 6))
    × (find_active_file 1 2060 (ended 1024 2060 [] one_file 7 none 6) ≡ none)
finish_close-wrap_file_example =
    finish_close-wrap_file 1024 2060 [] one_file 7 none 6 0 1 one_file-IsBucket one_file_open
      (λ e. absurd (omega arith)) same_bucket tt tt (omega arith)

abbrev new_session : Session
new_session = record { wrapper = new_wrapper 3 none 5 0; references = 0; closes = 0 }

new_session-IsNew : IsNew new_session
unfolding new_wrapper
new_session-IsNew = record {
  is_open = refl;
  idle = refl;
  unreferenced = refl;
  unclosed = refl;
  present = λ e. absurd (ground arith);
}

abbrev closing_session : Session
closing_session = record new_session { wrapper = mark_closing new_session.wrapper }

session_closing : Reach new_session closing_session
unfolding new_wrapper
session_closing = there new_session closing_session here (begin new_session refl)

Reach-Alive_example : Alive closing_session
Reach-Alive_example = Reach-Alive new_session closing_session new_session-IsNew session_closing

abbrev quiet_host : HostIo Bool
quiet_host = record { eof = λ f w. w; error = λ f w. false; clear = λ f w. false }

abbrev one_io : Io Bool
one_io = record { files = one_file; standard_flags = λ n. 4; world = true }

-- The same file while its close waits for another operation.
abbrev closing_io : Io Bool
closing_io = record one_io {
  files = record one_file {
    wrapper = λ a. record (new_wrapper 3 none 5 0) { state = file_closing; active_operations = 1 };
  };
}

closing-IsBucket : IsBucket closing_io.files 1024 (1024 ∷ [])
unfolding file_bucket new_wrapper
closing-IsBucket = (refl, (λ e. absurd (omega arith)), refl)

abbrev flush_call : HostFile → Bool → ℕ × Bool
flush_call file w = (0, false)

on_stream_stale_example :
    on_stream quiet_host true 1 flush_call 2 8000 1024 closing_io ≡ (1, closing_io)
on_stream_stale_example =
    on_stream_stale quiet_host true 1 flush_call 2 8000 1024 (1024 ∷ []) closing_io
      (λ e. absurd (omega (arith, e))) (λ e. absurd (omega (arith, e)))
      (λ e. absurd (omega (arith, e))) (omega arith) closing-IsBucket
      (λ on e. absurd (omega (arith, e)))

-- The C library of the host keeps signal 32 for itself.
abbrev host_signals : ℕ → Bool
host_signals k = if k == 32 then false else true

mask_to_guest-mask_to_host_example :
    (bit 16 (mask_to_guest (mask_to_host host_signals 2147549185))
      ≡ (if host_signals 17 then bit 16 2147549185 else 0))
    × (mask_to_guest (mask_to_host host_signals 2147549185) < 2 ^ 32)
mask_to_guest-mask_to_host_example =
    mask_to_guest-mask_to_host host_signals 2147549185 16 (omega arith)
