-- ===== src/Clocks.antt =====
-- src/clocks.rs: the clocks of ROS, and times that are read from them; src/context.rs and
-- src/utils.rs: the context, and the severities of log messages.
use r2r.Prelude.{
  ℕ, ◌≡◌, ◌<◌, ◌≤◌, ◌+◌, ◌-◌, ◌*◌, ◌/◌, ◌%◌, refl, arith, Bool, true, false, if◌then◌else◌, ltb,
  ◌&&◌,
}
use r2r.Errors.{
  Ret, rcl_ret_invalid_argument, rcl_ret_ok, rcl_ret_error, rcl, Result, ok, err, is_ok, ◌>>=◌,
}

pub data ClockType : Type 0 where
  ros_time system_time steady_time : ClockType

-- `rcl_clock_type_t`, of which the program makes three.
pub data RclClockType : Type 0 where
  rcl_ros_time rcl_system_time rcl_steady_time : RclClockType

unfoldable pub clock_type_to_rcl : ClockType → RclClockType
clock_type_to_rcl ros_time = rcl_ros_time
clock_type_to_rcl system_time = rcl_system_time
clock_type_to_rcl steady_time = rcl_steady_time

-- `std::time::Duration`.
pub record Duration : Type 0 where
  pub as_secs : ℕ
  pub subsec_nanos : ℕ

-- `Duration::from_nanos`.
abbrev pub from_nanos : ℕ → Duration
from_nanos n = record { as_secs = n / 1000000000; subsec_nanos = n % 1000000000 }

-- An `i32`.
pub data I32 : Type 0 where
  nonneg negative : ℕ → I32

-- An `i64`.
pub data I64 : Type 0 where
  nonneg negative : ℕ → I64

-- `n as i32` of an unsigned number: its 32 bits, in two's complement.
abbrev pub as_i32 : ℕ → I32
as_i32 n =
    let bits = n % 4294967296 in
    if ltb bits 2147483648 then I32.nonneg bits else I32.negative (4294967296 - bits)

-- `n as u64` of an `i64`.
abbrev pub as_u64 : I64 → ℕ
as_u64 (I64.nonneg n) = n
as_u64 (I64.negative n) = 18446744073709551616 - n

-- `builtin_interfaces::msg::Time`.
pub record Time : Type 0 where
  pub sec : I32
  pub nanosec : ℕ

-- `Clock::create`: `ret` is what `rcl_clock_init` returns for the clock type.
unfoldable pub create : (ret : RclClockType → Ret) → ClockType → Result RclClockType
unfolding clock_type_to_rcl
create ret ct =
    let rcl_ct = clock_type_to_rcl ct in
    if is_ok (ret rcl_ct) then ok rcl_ct else err (rcl (ret rcl_ct))

-- `Clock::get_now`, by what `rcl_clock_valid` and `rcl_clock_get_now` answer.
unfoldable pub get_now : (valid : Bool) (ret : Ret) (tp : I64) → Result Duration
get_now valid ret tp =
    if valid
    then (if is_ok ret then ok (from_nanos (as_u64 tp)) else err (rcl ret))
    else err (rcl rcl_ret_invalid_argument)

-- `Clock::to_builtin_time`.
unfoldable pub to_builtin_time : Duration → Time
to_builtin_time d = record { sec = as_i32 d.as_secs; nanosec = d.subsec_nanos }

as_i32_small : (s : ℕ) → s < 2147483648 → as_i32 s ≡ I32.nonneg s
as_i32_small s h =
    let e : s % 4294967296 ≡ s = omega (arith, h) in
    let f : ltb s 2147483648 ≡ true = ground (arith, h) in rw (e, f) refl

as_i32_large : (s : ℕ) → 2147483648 ≤ s → s < 4294967296 → as_i32 s ≡ I32.negative (4294967296 - s)
as_i32_large s h k =
    let e : s % 4294967296 ≡ s = omega (arith, k) in
    let f : ltb s 2147483648 ≡ false = ground (arith, h) in rw (e, f) refl

-- The time of a valid clock that shows `n` nanoseconds since 1970 has less than a second of
-- nanoseconds. Before 2038 it is `n`; from then on, until 2106, its seconds are negative, 2^32 less
-- than they should be.
pub get_now-to_builtin_time :
    (n : ℕ)
    → (t : Time) × (((get_now true rcl_ret_ok (I64.nonneg n) >>= λ d. ok (to_builtin_time d))
          ≡ ok t)
        × ((t.nanosec < 1000000000)
            × ((n < 2147483648000000000
                  → (s : ℕ) × ((t.sec ≡ I32.nonneg s) × (s * 1000000000 + t.nanosec ≡ n)))
                × (2147483648000000000 ≤ n
                    → n < 4294967296000000000
                    → (s : ℕ) × ((t.sec ≡ I32.negative s)
                        × (n + s * 1000000000 ≡ 4294967296000000000 + t.nanosec))))))
unfolding get_now to_builtin_time is_ok
get_now-to_builtin_time n =
    let s = n / 1000000000 in
    (
      to_builtin_time (from_nanos n),
      (
        refl,
        (
          omega arith,
          (
            (λ h. (s, (as_i32_small s (omega (arith, h)), omega arith))),
            λ h k. (
              4294967296 - s,
              (as_i32_large s (omega (arith, h)) (omega (arith, k)), omega (arith, h, k)),
            ),
          ),
        ),
      ),
    )

-- `Context::create`: whether the context is valid after `rcl_init`, and what
-- `rcl_logging_configure` returns.
unfoldable pub create_context : (is_valid : Bool) (logging : Ret) → Result (Unit {0})
create_context is_valid logging =
    if is_valid && is_ok logging then ok tt else err (rcl rcl_ret_error)

-- `LogSeverity`, and `RCUTILS_LOG_SEVERITY`.
pub data LogSeverity : Type 0 where
  unset debug info warn error fatal : LogSeverity

pub data RcutilsLogSeverity : Type 0 where
  severity_unset severity_debug severity_info severity_warn severity_error severity_fatal :
      RcutilsLogSeverity

unfoldable pub to_native : LogSeverity → RcutilsLogSeverity
to_native unset = severity_unset
to_native debug = severity_debug
to_native info = severity_info
to_native warn = severity_warn
to_native error = severity_error
to_native fatal = severity_fatal
