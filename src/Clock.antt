-- ===== src/Clock.antt =====
-- main.c, get_time_ms: the 64-bit millisecond clock over the SDK's 32-bit one.
--
-- `raw` is what to_ms_since_boot(get_absolute_time()) returns, the true time modulo 2 ^ 32.
use pico_stairway_controller.Base.{ℕ, ◌+◌, ◌%◌, ◌^◌, ◌<◌, ◌≤◌, ◌≡◌, arith, u64, sub32}

-- The static variables of get_time_ms.
pub record Clock : Type 0 where
  pub last_raw_time : ℕ  -- uint32_t
  pub total_ms : ℕ  -- uint64_t

unfoldable pub get_time_ms : ℕ → Clock → Clock × ℕ
get_time_ms raw c =
    let delta = sub32 raw c.last_raw_time in
    let total = u64 (c.total_ms + delta) in
    (record { last_raw_time = raw; total_ms = total }, total)

abbrev pub booted : Clock
booted = record { last_raw_time = 0; total_ms = 0 }

-- The clock was last read at the true time `t`.
pub record IsReadAt (c : Clock) (t : ℕ) : Type 0 where
  pub raw_agrees : c.last_raw_time ≡ t % 2 ^ 32
  pub total_agrees : c.total_ms ≡ t % 2 ^ 64

pub booted-IsReadAt : IsReadAt booted 0
booted-IsReadAt = omega arith

-- If less than 2 ^ 32 ms pass between two reads, the clock follows the true time across every
-- wrap of the 32-bit counter.
pub get_time_ms-tracks :
    (c : Clock) (t t' : ℕ)
    → IsReadAt c t
    → t ≤ t'
    → t' < t + 2 ^ 32
    → IsReadAt (get_time_ms (t' % 2 ^ 32) c).0 t' × ((get_time_ms (t' % 2 ^ 32) c).1 ≡ t' % 2 ^ 64)
unfolding get_time_ms sub32
get_time_ms-tracks c t t' r le lt = omega arith
