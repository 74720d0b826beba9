-- ===== src/Pthread/Types.antt =====
-- Mutex types: the static initialisers of old bionic, and the numbers of guest and host.
use tasm2_nextos.Prelude.{ℕ, ◌+◌, ◌*◌, ◌/◌, ◌%◌, ◌^◌, ◌≤◌, ◌≡◌, ◌≢◌, ◌↔◌, arith}
use tasm2_nextos.Pthread.State.{Host, ok}
use tasm2_nextos.Pthread.Create.{
  static_mutex_type, guest_mutex_type_to_host, host_mutex_type_to_guest,
}

-- A static initialiser is accepted with type `t` exactly when it is `t` in the bits from 14 on, at
-- most 2, and the process-shared bit 13, and nothing else.
static_mutex_type_iff :
    (raw t : ℕ)
    → (static_mutex_type raw ≡ ok t)
      ↔ ((p : ℕ) × (p ≤ 1) × (t ≤ 2) × (raw ≡ t * 2 ^ 14 + p * 2 ^ 13))
unfolding static_mutex_type
static_mutex_type_iff raw t =
    (λ e. (raw / 2 ^ 13 % 2, ground arith, ground arith, ground arith), λ h. accept h.0 h.1 h.2 h.3)
  where
    accept : (p : ℕ) → p ≤ 1 → t ≤ 2 → raw ≡ t * 2 ^ 14 + p * 2 ^ 13 → static_mutex_type raw ≡ ok t
    accept p hp ht e = ground arith

-- The guest's three mutex types come back from the host's numbers for them, if the host gives the
-- three different numbers.
host_mutex_type_to_guest-guest_mutex_type_to_host :
    (h : Host) (t host_type : ℕ)
    → h.normal ≢ h.recursive
    → h.normal ≢ h.errorcheck
    → h.recursive ≢ h.errorcheck
    → guest_mutex_type_to_host h t ≡ ok host_type
    → host_mutex_type_to_guest h host_type ≡ ok t
unfolding guest_mutex_type_to_host host_mutex_type_to_guest
host_mutex_type_to_guest-guest_mutex_type_to_host h t host_type nr ne re e = ground arith
