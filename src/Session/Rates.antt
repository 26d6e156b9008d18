-- ===== src/Session/Rates.antt =====
-- The rates and lengths that `rtl_ais_main` computes before it opens the device.
pub mod Laws
pub mod Levels
pub mod Interpolation
pub mod Stores
pub mod Setup
pub mod Reads
pub mod Receiver
pub mod Threads
pub mod Tests
use rtl_ais_android.Base.{
  ℕ, ◌+◌, ◌-◌, ◌*◌, ◌/◌, ◌^◌, ◌≤◌, ◌<◌, ltb, leb, ◌==◌, ◌||◌, Bool, true, false, if◌then◌else◌,
}
use rtl_ais_android.Base.Int.{ℤ, pos, ◌-ℤ◌}

-- DEFAULT_BUF_LENGTH
abbrev pub default_buf_length : ℕ
default_buf_length = 16 * 16384

-- `(int)log2(n / d)` in floating point, for 0 < d ≤ n.
pub record Logarithm : Type 0 where
  pub log2 : ℕ → ℕ → ℕ
  pub lower : (n d : ℕ) → 0 < d → d ≤ n → d * 2 ^ log2 n d ≤ n
  pub upper : (n d : ℕ) → 0 < d → d ≤ n → n < d * 2 ^ (log2 n d + 1)

-- The options that the plan depends on. Frequencies and rates are not negative.
pub record Tuned : Type 0 where
  pub left_freq : ℕ
  pub right_freq : ℕ
  pub sample_rate : ℕ
  pub output_rate : ℕ
  pub edge : Bool

-- The fields of one `struct downsample_state` that are planned.
pub record Stage : Type 0 where
  pub rate_in : ℕ
  pub rate_out : ℕ
  pub downsample : ℕ
  pub downsample_passes : ℕ
  pub len_in : ℕ
  pub len_out : ℕ

pub record Plan : Type 0 where
  pub dongle_freq : ℤ
  pub dongle_rate : ℕ
  pub both : Stage
  pub left : Stage
  pub right : Stage
  pub left_buf_len : ℕ
  pub left_result_len : ℕ
  pub right_buf_len : ℕ
  pub right_result_len : ℕ
  pub bl_len : ℕ
  pub br_len : ℕ
  pub stereo_result_len : ℕ

-- `undefined` is a division by zero, or the logarithm of zero or of a quotient by zero made an `int`.
pub data Planned : Type 0 where
  planned : Plan → Planned
  wrong_args : Planned
  exits : Planned
  undefined : Planned

module _ (log : Logarithm) where
  open log use {log2}

  -- The lengths, once the rates are known. `bl_len` is computed in `double`, which is exact enough
  -- below 2 ^ 53 to cut at the same integer.
  unfoldable pub plan_lengths : Tuned → ℕ → ℕ → ℕ → ℕ → Plan
  plan_lengths o delta i j k =
      let dongle_rate = delta * 2 ^ i in
      let both_down = 2 ^ j in
      let left_down = 2 ^ k in
      let both_out = default_buf_length / both_down in
      let left_out = both_out / left_down in
      let bl = default_buf_length / 2 * o.output_rate / dongle_rate in
      let channel : Stage = record {
        rate_in = delta * 2;
        rate_out = delta * 2 / left_down;
        downsample = left_down;
        downsample_passes = k;
        len_in = both_out;
        len_out = left_out;
      } in
      record {
        dongle_freq =
            if o.edge
            then pos (o.left_freq / 2 + o.right_freq / 2) -ℤ pos (o.sample_rate / 2)
            else pos (o.left_freq / 2 + o.right_freq / 2);
        dongle_rate = dongle_rate;
        both = record {
          rate_in = dongle_rate;
          rate_out = delta * 2;
          downsample = both_down;
          downsample_passes = j;
          len_in = default_buf_length;
          len_out = both_out;
        };
        left = channel;
        right = channel;
        left_buf_len = left_out;
        left_result_len = left_out / 2;
        right_buf_len = left_out;
        right_result_len = left_out / 2;
        bl_len = bl;
        br_len = bl;
        stereo_result_len = bl * 2;
      }

  -- The rates, once the difference of the frequencies has passed its checks.
  unfoldable pub plan_rates : Tuned → ℕ → Planned
  unfolding plan_lengths
  plan_rates o delta =
      if delta == 0
      then undefined
      else (let i = log2 2400000 delta in
          let j = log2 (delta * 2 ^ i / (delta * 2)) 1 in
          if (o.sample_rate == 0) || ltb (delta * 2) o.sample_rate
          then undefined
          else (let k = log2 (delta * 2 / o.sample_rate) 1 in
              if ltb o.output_rate (delta * 2 / 2 ^ k)
              then exits
              else planned (plan_lengths o delta i j k)))

  -- The test for a negative difference cannot succeed after the first one.
  unfoldable pub plan : Tuned → Planned
  unfolding plan_rates
  plan o =
      if ltb o.right_freq o.left_freq
      then wrong_args
      else (let delta = o.right_freq - o.left_freq in
          if ltb 1200000 delta then wrong_args else plan_rates o delta)
