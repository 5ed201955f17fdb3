-- ===== src/Queue/Retry.antt =====
-- src/queue/retry.rs. A `Duration` is a number of nanoseconds. The floating-point part is a
-- parameter: `scaled initial multiplier k` is
-- `Duration::from_secs_f64(initial.as_secs_f64() * multiplier.powi(k))`, and `none` its panic.
use Prim.Native.Nat.{ℕ, ◌-◌, ◌*◌, ◌^◌, min}
use mathlib.Core.Bool.{Bool}
use mathlib.Core.Option.{Option, none, some}
use my_mta.Prelude.{leb, if◌then◌else◌}

pub record Floats : Type 1 where
  pub F64 : Type 0
  pub scaled : ℕ → F64 → ℕ → Option ℕ

abbrev pub second : ℕ
second = 10 ^ 9

abbrev pub u32_mod : ℕ
u32_mod = 2 ^ 32

abbrev pub i32_max : ℕ
i32_max = 2 ^ 31 - 1

module _ (floats : Floats) where
  pub record RetrySchedule : Type 0 where
    pub initial_delay : ℕ
    pub backoff_multiplier : floats.F64
    pub max_delay : ℕ
    pub max_attempts : ℕ

  -- `Default::default`, where `two` is 2.0.
  unfoldable pub default_schedule : floats.F64 → RetrySchedule
  default_schedule two = record {
    initial_delay = 60 * second;
    backoff_multiplier = two;
    max_delay = 3600 * second;
    max_attempts = 10;
  }

  cap_delay : ℕ → Option ℕ → Option ℕ
  cap_delay max_delay none = none
  cap_delay max_delay (some delay) = some (min delay max_delay)

  -- The cast `as i32` saturates.
  unfoldable pub delay_for_attempt : RetrySchedule → ℕ → Option ℕ
  unfolding cap_delay
  delay_for_attempt r attempt =
      if leb attempt 1
      then some 0
      else cap_delay r.max_delay
          (floats.scaled r.initial_delay r.backoff_multiplier (min (attempt - 2) i32_max))

  unfoldable pub should_give_up : RetrySchedule → ℕ → Bool
  should_give_up r attempt = leb r.max_attempts attempt
