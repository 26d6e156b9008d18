-- ===== src/Tuning.antt =====
-- app/src/main/jni/rtl-sdr/src/convenience/convenience.c: the choice of a supported gain or
-- bandwidth, and the calls that set one up. `librtlsdr` is a parameter: what it supports and what
-- its calls return.
pub mod Nearest
pub mod Devices
pub mod Eeprom
pub mod Suffix
mod Tests
use rtl_ais_android.Base.{
  ℕ, suc, ◌+◌, ◌==◌, ltb, Bool, true, false, List, [], ◌∷◌, ◌++◌, Option, none, some, if◌then◌else◌,
}
use rtl_ais_android.Base.Int.{ℤ, pos, negsuc, ◌-ℤ◌, abs, to_int32, ltb_ℤ, is_zero}

-- The calls into `librtlsdr` that change the device.
pub data Call : Type 0 where
  set_center_freq : ℕ → Call
  set_sample_rate : ℕ → Call
  set_tuner_gain_mode : ℤ → Call
  set_tuner_gain : ℤ → Call
  set_freq_correction : ℤ → Call
  set_tuner_if_gain : ℕ → ℤ → Call
  set_testmode : ℤ → Call
  set_agc_mode : ℤ → Call
  set_direct_sampling : ℤ → Call
  set_offset_tuning : ℤ → Call
  set_xtal_freq : ℕ → ℕ → Call
  set_tuner_bandwidth : ℕ → Call
  reset_buffer : Call
  cancel_async : Call

-- An open device: the lists that `rtlsdr_get_tuner_gains` and `rtlsdr_get_tuner_bandwidths` copy out,
-- and the result of each call.
pub record Device : Type 0 where
  pub gains : List ℤ
  pub bandwidths : List ℤ
  pub result : Call → ℤ

-- What a function returns and the calls that it made, in order; `none` is a read beyond an array.
pub record Made {ℓ} (A : Type ℓ) : Type ℓ where
  pub value : A
  pub calls : List Call

-- abs(target - g) in `int`.
abbrev pub err : ℤ → ℤ → ℕ
err target g = abs (to_int32 (target -ℤ g))

-- One round: a strictly smaller error replaces the choice.
pub closer : ℤ → ℤ → ℤ → ℤ
closer target nearest g = if ltb (err target g) (err target nearest) then g else nearest

-- The loop of `nearest_gain` and `nearest_bandwidth` over the list.
pub nearest_from : ℤ → ℤ → List ℤ → ℤ
nearest_from target nearest [] = nearest
nearest_from target nearest (g ∷ gs) = nearest_from target (closer target nearest g) gs

module _ (dev : Device) where
  -- A count of 0 gives 0; a failed call its result.
  unfoldable pub nearest_gain : ℤ → Made ℤ
  unfolding nearest_from closer
  nearest_gain target =
      let manual = set_tuner_gain_mode (pos 1) in
      let r = dev.result manual in
      if ltb_ℤ r (pos 0) then record { value = r; calls = manual ∷ [] } else (record {
        value = elim dev.gains [ [] ↦ pos 0 | g ∷ gs ↦ nearest_from target g (g ∷ gs) ];
        calls = manual ∷ [];
      })

  -- `widths[0]` is read before the loop, also where the list is empty.
  unfoldable pub nearest_bandwidth : ℤ → Option ℤ
  unfolding nearest_from closer
  nearest_bandwidth target = elim dev.bandwidths [
    | [] ↦ none
    | w ∷ ws ↦ some (nearest_from target w (w ∷ ws))
  ]

  -- The calls that only report an error return it.
  pub verbose : Call → Made ℤ
  verbose c = record { value = dev.result c; calls = c ∷ [] }

  unfoldable pub verbose_auto_gain : Made ℤ
  unfolding verbose
  verbose_auto_gain = verbose (set_tuner_gain_mode (pos 0))

  unfoldable pub verbose_gain_set : ℤ → Made ℤ
  verbose_gain_set gain =
      let manual = set_tuner_gain_mode (pos 1) in
      let r = dev.result manual in
      if ltb_ℤ r (pos 0) then record { value = r; calls = manual ∷ [] } else (record {
        value = dev.result (set_tuner_gain gain);
        calls = manual ∷ (set_tuner_gain gain ∷ []);
      })

  -- A correction of 0 is not set.
  unfoldable pub verbose_ppm_set : ℤ → Made ℤ
  unfolding verbose
  verbose_ppm_set ppm_error =
      if is_zero ppm_error
      then record { value = pos 0; calls = [] }
      else verbose (set_freq_correction ppm_error)

  unfoldable pub verbose_set_frequency : ℕ → Made ℤ
  unfolding verbose
  verbose_set_frequency frequency = verbose (set_center_freq frequency)

  unfoldable pub verbose_set_sample_rate : ℕ → Made ℤ
  unfolding verbose
  verbose_set_sample_rate samp_rate = verbose (set_sample_rate samp_rate)

  unfoldable pub verbose_set_bandwidth : ℕ → Made ℤ
  unfolding verbose
  verbose_set_bandwidth bandwidth = verbose (set_tuner_bandwidth bandwidth)

  unfoldable pub verbose_reset_buffer : Made ℤ
  unfolding verbose
  verbose_reset_buffer = verbose reset_buffer

  unfoldable pub verbose_direct_sampling : ℤ → Made ℤ
  unfolding verbose
  verbose_direct_sampling on = verbose (set_direct_sampling on)

  unfoldable pub verbose_offset_tuning : Made ℤ
  unfolding verbose
  verbose_offset_tuning = verbose (set_offset_tuning (pos 1))
