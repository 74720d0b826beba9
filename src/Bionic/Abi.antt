-- ===== src/Bionic/Abi.antt =====
-- Structures that Android lays out differently, signal masks, and small calls.
use tasm2_nextos.Prelude.{
  ℕ, zero, suc, ◌+◌, ◌-◌, ◌*◌, ◌/◌, ◌%◌, ◌^◌, ◌==◌, ltb, leb, Bool, false, ◌&&◌, ◌||◌, Option, none,
  some, List, if◌then◌else◌, length, take,
}

-- The fields of the host's `struct stat` that are read, as unsigned numbers.
pub record HostStat : Type 0 where
  pub st_dev : ℕ
  pub st_ino : ℕ
  pub st_mode : ℕ
  pub st_nlink : ℕ
  pub st_uid : ℕ
  pub st_gid : ℕ
  pub st_rdev : ℕ
  pub st_size : ℕ
  pub st_blksize : ℕ
  pub st_blocks : ℕ
  pub st_atime_sec : ℕ
  pub st_atime_nsec : ℕ
  pub st_mtime_sec : ℕ
  pub st_mtime_nsec : ℕ
  pub st_ctime_sec : ℕ
  pub st_ctime_nsec : ℕ

-- `struct asm2_stat`, without its padding
pub record GuestStat : Type 0 where
  pub st_dev : ℕ
  pub old_ino : ℕ
  pub st_mode : ℕ
  pub st_nlink : ℕ
  pub st_uid : ℕ
  pub st_gid : ℕ
  pub st_rdev : ℕ
  pub st_size : ℕ
  pub st_blksize : ℕ
  pub st_blocks : ℕ
  pub st_atime_sec : ℕ
  pub st_atime_nsec : ℕ
  pub st_mtime_sec : ℕ
  pub st_mtime_nsec : ℕ
  pub st_ctime_sec : ℕ
  pub st_ctime_nsec : ℕ
  pub st_ino : ℕ

-- `stat_to_android`: the fields of 32 bits lose what is above them
unfoldable pub stat_to_android : HostStat → GuestStat
stat_to_android host = record {
  st_dev = host.st_dev % 2 ^ 64;
  old_ino = host.st_ino % 2 ^ 32;
  st_mode = host.st_mode % 2 ^ 32;
  st_nlink = host.st_nlink % 2 ^ 32;
  st_uid = host.st_uid % 2 ^ 32;
  st_gid = host.st_gid % 2 ^ 32;
  st_rdev = host.st_rdev % 2 ^ 64;
  st_size = host.st_size % 2 ^ 64;
  st_blksize = host.st_blksize % 2 ^ 32;
  st_blocks = host.st_blocks % 2 ^ 64;
  st_atime_sec = host.st_atime_sec % 2 ^ 32;
  st_atime_nsec = host.st_atime_nsec % 2 ^ 32;
  st_mtime_sec = host.st_mtime_sec % 2 ^ 32;
  st_mtime_nsec = host.st_mtime_nsec % 2 ^ 32;
  st_ctime_sec = host.st_ctime_sec % 2 ^ 32;
  st_ctime_nsec = host.st_ctime_nsec % 2 ^ 32;
  st_ino = host.st_ino % 2 ^ 64;
}

-- `struct asm2_statfs`, without `f_spare`
pub record Statfs : Type 0 where
  pub f_type : ℕ
  pub f_bsize : ℕ
  pub f_blocks : ℕ
  pub f_bfree : ℕ
  pub f_bavail : ℕ
  pub f_files : ℕ
  pub f_ffree : ℕ
  pub f_fsid : ℕ × ℕ
  pub f_namelen : ℕ
  pub f_frsize : ℕ
  pub f_flags : ℕ

-- The translation in `asm2_statfs`, of a host's `struct statfs64` with the same fields.
unfoldable pub statfs_to_android : Statfs → Statfs
statfs_to_android host = record {
  f_type = host.f_type % 2 ^ 32;
  f_bsize = host.f_bsize % 2 ^ 32;
  f_blocks = host.f_blocks;
  f_bfree = host.f_bfree;
  f_bavail = host.f_bavail;
  f_files = host.f_files;
  f_ffree = host.f_ffree;
  f_fsid = host.f_fsid;
  f_namelen = host.f_namelen % 2 ^ 32;
  f_frsize = host.f_frsize % 2 ^ 32;
  f_flags = host.f_flags % 2 ^ 32;
}

-- `struct asm2_dirent`, and what is read of the host's
pub record Dirent : Type 0 where
  pub d_ino : ℕ
  pub d_off : ℕ
  pub d_reclen : ℕ
  pub d_type : ℕ
  pub d_name : List ℕ

-- `asm2_readdir` of an entry; the name is cut at 255 characters
unfoldable pub readdir : Option Dirent → Option Dirent
readdir none = none
readdir (some host) = some (record host {
  d_reclen = 280;
  d_name = if ltb (length host.d_name) 256 then host.d_name else take 255 host.d_name;
})

-- The host's set of signals: whether it has a number.
abbrev pub SignalSet : Type 0
SignalSet = ℕ → Bool

-- `sigaddset` of a signal, which the host accepts or not: its C library keeps some for itself.
unfoldable pub add_signal : (ℕ → Bool) → ℕ → SignalSet → SignalSet
add_signal accepts index signals k = accepts index && k == index || signals k

-- The loop from the signal `index` on that fills the host's set: `count` signals are left.
unfoldable pub add_signals : (ℕ → Bool) → ℕ → ℕ → ℕ → SignalSet → SignalSet
add_signals accepts zero index mask signals = signals
add_signals accepts (suc count) index mask signals =
    add_signals accepts count (index + 1) (mask / 2)
      (if mask % 2 == 1 then add_signal accepts index signals else signals)

-- The host's set for a mask of Android's, which has a bit for each of the signals 1 to 32; the
-- signals that `sigaddset` accepts are a parameter.
unfoldable pub mask_to_host : (ℕ → Bool) → ℕ → SignalSet
mask_to_host accepts mask = add_signals accepts 32 1 mask (λ k. false)

-- The loop that makes the mask of the signals from `index` on.
unfoldable pub collect_signals : ℕ → ℕ → SignalSet → ℕ
collect_signals zero index signals = 0
collect_signals (suc count) index signals =
    let rest = collect_signals count (index + 1) signals in
    (if signals index then 1 else 0) + 2 * rest

unfoldable pub mask_to_guest : SignalSet → ℕ
mask_to_guest signals = collect_signals 32 1 signals

-- `asm2_strerror_r` for a buffer that is not NULL: the result, and the text in it
unfoldable pub strerror_r : List ℕ → ℕ → ℕ × Option (List ℕ)
strerror_r message buffer_size =
    if buffer_size == 0
    then (34, none)
    else if leb buffer_size (length message)
    then (34, some (take (buffer_size - 1) message))
    else (0, some message)

-- `asm2_sysconf`: the page size, or -1 with `ENOSYS`
unfoldable pub sysconf : ℕ → ℕ → Option ℕ
sysconf page_size name = if name == 39 || name == 40 then some page_size else none

-- The page size after `asm2_bionic_init`, from the host's answer; -1 is `none`
unfoldable pub init_page_size : Option ℕ → ℕ
init_page_size none = 4096
init_page_size (some n) = if ltb 0 n && leb n 2147483647 then n else 4096
