-- ===== src/Bionic/Calls.antt =====
-- The calls on paths, over the host's functions, which are parameters with a state `W`: a path that
-- cannot be translated never reaches the host.
use tasm2_nextos.Prelude.{ℕ, ◌/◌, ◌%◌, ◌==◌, Bool, Option, none, some, List, if◌then◌else◌}
use tasm2_nextos.Prelude.Int.{ℤ, pos, negsuc}
use tasm2_nextos.Bionic.Paths.{on_host, rename_path}
use tasm2_nextos.Bionic.Abi.{HostStat, GuestStat, stat_to_android, Statfs, statfs_to_android}

-- -1, without a change of the state
abbrev pub failed {ℓ} : {W : Type ℓ} → W → ℤ × W
failed w = (negsuc 0, w)

-- A call of the host with a path.
abbrev pub HostCall : Type 0 → Type 0
HostCall W = List ℕ → W → ℤ × W

module _ {W : Type 0} (root : List ℕ) where
  unfoldable pub access_path : (ℕ → HostCall W) → ℕ → HostCall W
  access_path host mode path = on_host root failed (host mode) path

  unfoldable pub chdir : HostCall W → HostCall W
  chdir host path = on_host root failed host path

  unfoldable pub chmod : (ℕ → HostCall W) → ℕ → HostCall W
  chmod host mode path = on_host root failed (host mode) path

  unfoldable pub mkdir : (ℕ → HostCall W) → ℕ → HostCall W
  mkdir host mode path = on_host root failed (host mode) path

  -- `asm2_open`: the mode is read only with `O_CREAT`, the bit 6 of the flags
  unfoldable pub open_file : (ℕ → Option ℕ → HostCall W) → ℕ → ℕ → HostCall W
  open_file host flags mode path =
      on_host root failed (host flags (if flags / 64 % 2 == 1 then some mode else none)) path

  unfoldable pub opendir : (List ℕ → W → Option ℕ × W) → List ℕ → W → Option ℕ × W
  opendir host path = on_host root (λ w. (none, w)) host path

  unfoldable pub remove_path : HostCall W → HostCall W
  remove_path host path = on_host root failed host path

  unfoldable pub rename_file : (List ℕ → HostCall W) → List ℕ → HostCall W
  rename_file host old_path new_path = rename_path root failed host old_path new_path

  unfoldable pub rmdir : HostCall W → HostCall W
  rmdir host path = on_host root failed host path

  unfoldable pub unlink_path : HostCall W → HostCall W
  unlink_path host path = on_host root failed host path

-- The structure for the game, if the host's call gave one and the game asked for it.
unfoldable pub give_stat : Bool → Option HostStat → ℤ × Option GuestStat
give_stat asked none = (negsuc 0, none)
give_stat asked (some host) = (pos 0, (if asked then some (stat_to_android host) else none))

-- `asm2_stat`; the host's call gives nothing when it fails
unfoldable pub stat_path :
    List ℕ → (List ℕ → Option HostStat) → Bool → List ℕ → ℤ × Option GuestStat
stat_path root host asked path = give_stat asked (on_host root none host path)

-- `asm2_fstat`
unfoldable pub fstat : (ℕ → Option HostStat) → Bool → ℕ → ℤ × Option GuestStat
fstat host asked fd = give_stat asked (host fd)

unfoldable pub give_statfs : Bool → Option Statfs → ℤ × Option Statfs
give_statfs asked none = (negsuc 0, none)
give_statfs asked (some host) = (pos 0, (if asked then some (statfs_to_android host) else none))

-- `asm2_statfs`
unfoldable pub statfs : List ℕ → (List ℕ → Option Statfs) → Bool → List ℕ → ℤ × Option Statfs
statfs root host asked path = give_statfs asked (on_host root none host path)
