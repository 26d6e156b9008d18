-- ===== src/Dsp/Tests.antt =====
-- The theorems on the signal path at concrete blocks.
use rtl_ais_android.Base.{ℕ, suc, ◌+◌, ◌-◌, ◌*◌, ◌%◌, ◌≤◌, ◌<◌, ◌≡◌, refl, ap, arith, Array, update}
use rtl_ais_android.Base.Int.{ℤ, pos, negsuc, scale, ◌-ℤ◌, ◌≤ℤ◌, Within}
use rtl_ais_android.Dsp.FifthOrder.{Taps, fifth_order}
use rtl_ais_android.Dsp.FifthOrder.Stream.{fifth_order-skips_last}
use rtl_ais_android.Dsp.GenericFir.{History}
use rtl_ais_android.Dsp.Downsample.{DownsampleState, downsample}
use rtl_ais_android.Dsp.Downsample.Decimation.Calls.{Carries}
use rtl_ais_android.Dsp.Downsample.Decimation.Passes.{AreDecimated, downsample-AreDecimated}
use rtl_ais_android.Dsp.Demod.{DemodState, fast_atan2, demodulate, dc_block_filter}
use rtl_ais_android.Dsp.Demod.Angle.{fast_atan2_overflows}
use rtl_ais_android.Dsp.Demod.Blocks.{whole, first_block, second_block, demodulate_in_blocks}
use rtl_ais_android.Dsp.Demod.Dc.{dc_block_filter_converges}

-- A saw tooth.
abbrev pub samples : Array ℤ
samples n = pos (n % 100)

abbrev taps : Taps
taps = record { a = pos 0; b = pos 1; c = pos 2; d = pos 3; e = pos 4; f = pos 5 }

abbrev history : History
history = record {
  h0 = pos 1;
  h1 = pos 2;
  h2 = pos 3;
  h3 = pos 4;
  h4 = pos 5;
  h5 = pos 4;
  h6 = pos 3;
  h7 = pos 2;
  h8 = pos 1;
}

fifth_order-skips_last_example :
    let r = fifth_order 0 (4 * 4) taps samples in
    let r' = fifth_order 0 (4 * 4) taps (update samples (0 + 2 * (2 * 4 - 1)) (pos 77)) in
    (r'.taps ≡ r.taps) × ((k : ℕ) → k < 4 → r'.buf (0 + 2 * k) ≡ r.buf (0 + 2 * k))
fifth_order-skips_last_example = fifth_order-skips_last 0 4 taps samples (pos 77) (omega arith)

abbrev silence : Taps
silence = record { a = pos 0; b = pos 0; c = pos 0; d = pos 0; e = pos 0; f = pos 0 }

abbrev pub stage : DownsampleState
stage = record {
  buf = samples;
  len_in = 16;
  len_out = 4;
  rate_in = 96;
  rate_out = 24;
  downsample = 4;
  downsample_passes = 2;
  lp_i_hist = λ i. silence;
  lp_q_hist = λ i. silence;
  droop_i_hist = history;
  droop_q_hist = history;
}

-- The parts of the saw tooth.
abbrev evens : ℕ → ℤ
evens k = pos (2 * k % 100)

abbrev odds : ℕ → ℤ
odds k = pos ((2 * k + 1) % 100)

evens-Carries : Carries 0 8 evens samples
evens-Carries k lt = ap pos (omega arith)

odds-Carries : Carries 1 8 odds samples
odds-Carries k lt = ap pos (omega arith)

downsample-AreDecimated_example : AreDecimated 2 stage evens odds (downsample stage)
downsample-AreDecimated_example =
    downsample-AreDecimated 2 stage (omega arith) refl evens odds evens-Carries odds-Carries

fast_atan2_overflows_example : pos 4096 ≤ℤ fast_atan2 (pos 0) (pos 600000)
fast_atan2_overflows_example = fast_atan2_overflows 600000 (omega arith) (omega arith)

abbrev pub demod : DemodState
demod = record {
  buf = samples;
  buf_len = 8;
  result = samples;
  result_len = 4;
  pre_r = pos 1;
  pre_j = negsuc 4;
  dc_avg = pos 7;
}

demodulate_in_blocks_example :
    ((k : ℕ)
      → k ≤ 3
      → (demodulate (whole demod 3 2)).result k ≡ (demodulate (first_block demod 3 2)).result k)
    × ((k : ℕ)
        → k ≤ 2
        → (demodulate (whole demod 3 2)).result (suc (3 + k))
          ≡ (demodulate (second_block demod 3 2)).result k)
    × ((demodulate (whole demod 3 2)).pre_r ≡ (demodulate (second_block demod 3 2)).pre_r)
    × ((demodulate (whole demod 3 2)).pre_j ≡ (demodulate (second_block demod 3 2)).pre_j)
demodulate_in_blocks_example = demodulate_in_blocks demod 3 2

abbrev level : DemodState
level = record demod { result = λ j. pos 57 }

level_apart : Within 50 (level.dc_avg -ℤ pos 57)
unfolding ◌-ℤ◌
level_apart = (omega arith, omega arith)

dc_block_filter_converges_example :
    Within (9 * 50 + 9) (scale 10 ((dc_block_filter level).dc_avg -ℤ pos 57))
dc_block_filter_converges_example =
    dc_block_filter_converges (pos 57) 50 3 level refl (λ j lt. refl) (omega arith, omega arith)
      (omega arith, omega arith) level_apart
