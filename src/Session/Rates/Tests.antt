-- ===== src/Session/Rates/Tests.antt =====
-- The theorems on the plan at the two channels of AIS.
pub mod Runs
use native.Mathlib.Nat.{pow-suc}
use native.Mathlib.Numerals.{add-one}
use rtl_ais_android.Base.{
  ℕ, zero, suc, ◌+◌, ◌-◌, ◌*◌, ◌^◌, ◌≤◌, ◌<◌, ◌≡◌, ◌↔◌, refl, arith, false, leb, ap, Bool-cases,
  inl, inr, leb→le, leb-false→lt, true,
}
use rtl_ais_android.Base.Int.{mul_mono}
use rtl_ais_android.Base.{[], ◌∷◌}
use Prim.{tt}
use rtl_ais_android.Base.{Array, ◌%◌, ltb, if◌then◌else◌, Agree}
use rtl_ais_android.Base.Int.{pos}
use rtl_ais_android.Dsp.Pipeline.Reads.State.{SameState}
use rtl_ais_android.Session.Rates.Reads.{plan-reads}
use rtl_ais_android.Base.{◌/◌}
use rtl_ais_android.Session.Rates.Receiver.{AreReceived, plan-receives}
use rtl_ais_android.Session.Rates.Threads.{Reach-receives}
use rtl_ais_android.Dsp.Pipeline.Threads.{System, Reach, start, reading}
use rtl_ais_android.Dsp.Pipeline.Threads.Turns.{in_turn, all_in_turn}
use rtl_ais_android.Dsp.Pipeline.Threads.Sequential.{settled}
use rtl_ais_android.Base.{false}
use rtl_ais_android.Base.Int.{Within}
use rtl_ais_android.Dsp.Tests.{samples, stage}
use rtl_ais_android.Dsp.Pipeline.{Pipeline}
use rtl_ais_android.Dsp.Pipeline.Levels.{AreBytes, feed}
use rtl_ais_android.Dsp.Pipeline.Tests.{hold, pipe}
use rtl_ais_android.Base.Int.{ℤ}
use rtl_ais_android.Dsp.Upsample.{done, arbitrary_upsample}
use rtl_ais_android.Dsp.Upsample.{upsampled}
use rtl_ais_android.Dsp.Upsample.Positions.{IsOutput}
use rtl_ais_android.Session.Rates.Interpolation.{plan-interpolates}
use rtl_ais_android.Dsp.Pipeline.Stores.{Kept}
use rtl_ais_android.Dsp.Pipeline.Init.{Fresh, init_buffers}
use rtl_ais_android.Session.Rates.Levels.{no_history}
use rtl_ais_android.Session.Rates.Setup.{assign, plan-stores, plan-levels}
use rtl_ais_android.Session.Rates.{Logarithm, Tuned, Plan, planned, plan_lengths, plan_rates, plan}
use rtl_ais_android.Session.Rates.Laws.{plan-rates, plan-passes_iff}

-- How often d can be doubled up to n, with fuel.
unfoldable pub floor_log : ℕ → ℕ → ℕ → ℕ
floor_log zero n d = 0
floor_log (suc fuel) n d = elim (leb (2 * d) n) [
  | true ↦ suc (floor_log fuel n (2 * d))
  | false ↦ 0
]

pub floor_log-lower : (fuel n d : ℕ) → d ≤ n → d * 2 ^ floor_log fuel n d ≤ n
unfolding floor_log
floor_log-lower zero n d le = omega arith
floor_log-lower (suc fuel) n d le = elim (Bool-cases (leb (2 * d) n)) [
  | inl more ↦
      rw (more, floor_log)
        (omega (
          arith,
          floor_log-lower fuel n (2 * d) (leb→le (2 * d) n more),
          ap (λ (t : ℕ). d * t) (pow-suc 2 (floor_log fuel n (2 * d))),
        ))
  | inr less ↦ rw (less, floor_log) (omega arith)
]

pub floor_log-upper : (fuel n d : ℕ) → n < d * 2 ^ fuel → n < d * 2 ^ (floor_log fuel n d + 1)
unfolding floor_log
floor_log-upper zero n d lt = omega arith
floor_log-upper (suc fuel) n d lt = elim (Bool-cases (leb (2 * d) n)) [
  | inl more ↦
      let rest = floor_log fuel n (2 * d) in
      rw (more, floor_log)
        (omega (
          arith,
          floor_log-upper fuel n (2 * d) (omega (arith, ap (λ (t : ℕ). d * t) (pow-suc 2 fuel))),
          ap (λ (t : ℕ). d * 2 ^ t) (add-one rest),
          ap (λ (t : ℕ). d * 2 ^ t) (add-one (suc rest)),
          ap (λ (t : ℕ). d * t) (pow-suc 2 (suc rest)),
          ap (λ (t : ℕ). d * t) (pow-suc 2 rest),
        ))
  | inr less ↦ rw (less, floor_log) (omega (arith, leb-false→lt (2 * d) n less))
]

lt-pow : (n : ℕ) → n < 2 ^ n
lt-pow zero = omega arith
lt-pow (suc n) = omega (arith, lt-pow n, pow-suc 2 n)

pub fuel_enough : (n d : ℕ) → 0 < d → n < d * 2 ^ n
fuel_enough n d positive =
    omega (arith, lt-pow n, mul_mono 1 (2 ^ n) d (2 ^ n) positive (omega arith))

abbrev pub floor : Logarithm
floor = record {
  log2 = λ n d. floor_log n n d;
  lower = λ n d positive le. floor_log-lower n n d le;
  upper = λ n d positive le. floor_log-upper n n d (fuel_enough n d positive);
}

-- 161.975 MHz and 162.025 MHz, at the rates that are the defaults.
abbrev pub ais : Tuned
ais = record {
  left_freq = 161975000;
  right_freq = 162025000;
  sample_rate = 24000;
  output_rate = 48000;
  edge = false;
}

abbrev pub ais_plan : Plan
ais_plan = plan_lengths floor ais 50000 5 4 2

pub ais_planned : plan floor ais ≡ planned ais_plan
unfolding plan plan_rates floor_log
ais_planned = refl

plan-rates_example :
    (1200000 < ais_plan.dongle_rate)
    × (ais_plan.dongle_rate ≤ 2400000)
    × (ais_plan.both.rate_in ≡ ais_plan.dongle_rate)
    × (ais_plan.both.rate_in ≡ ais_plan.both.downsample * ais_plan.both.rate_out)
    × (ais_plan.both.rate_out ≡ 2 * (162025000 - 161975000))
    × (ais_plan.left.rate_in ≡ ais_plan.both.rate_out)
    × (24000 ≤ ais_plan.left.rate_out)
    × (ais_plan.left.rate_out < 2 * 24000)
    × (ais_plan.left.rate_out ≤ 48000)
plan-rates_example = plan-rates floor ais ais_plan ais_planned

plan-passes_iff_example : (ais_plan.both.downsample_passes ≤ 10) ↔ (586 ≤ 162025000 - 161975000)
plan-passes_iff_example = plan-passes_iff floor ais ais_plan ais_planned

abbrev pub saw : Array ℕ
saw x = x % 256

pub saw_bytes : (x : ℕ) → saw x < 256
saw_bytes x = omega arith

-- Without interpolation.
abbrev pub first_of_two : ℕ → ℕ → ℤ → ℤ → ℤ
first_of_two tick len2 a b = a

pub ais_exact : ais_plan.left.downsample * ais_plan.left.rate_out ≡ ais_plan.left.rate_in
unfolding plan_lengths floor_log
ais_exact = refl

ais_two : 2 ≤ ais_plan.left_result_len
unfolding plan_lengths floor_log
ais_two = omega arith

ais_fuel : ais_plan.bl_len < 4000
unfolding plan_lengths floor_log
ais_fuel = omega arith

plan-interpolates_example :
    (ais_plan.right_result_len ≡ ais_plan.left_result_len)
    × (ais_plan.br_len ≡ ais_plan.bl_len)
    × ((out : Array ℤ) × (arbitrary_upsample first_of_two samples ais_plan.left_result_len
            ais_plan.bl_len 4000 samples
          ≡ done out)
        × ((m : ℕ)
            → m < ais_plan.bl_len
            → IsOutput first_of_two samples ais_plan.left_result_len ais_plan.bl_len samples m
                (out m))
        × ((m : ℕ) → ais_plan.bl_len ≤ m → out m ≡ samples m))
plan-interpolates_example =
    plan-interpolates floor ais ais_plan ais_planned ais_exact first_of_two samples samples 4000
      ais_two ais_fuel

-- A quotient with a remainder: one output less than samples.
abbrev uneven : Plan
uneven =
    plan_lengths floor (record ais { right_freq = 161975000 + 48001; output_rate = 24000 }) 48001 5
      4 2

uneven_planned :
    plan floor (record ais { right_freq = 161975000 + 48001; output_rate = 24000 }) ≡ planned uneven
unfolding plan plan_rates floor_log
uneven_planned = refl

uneven_lengths : (uneven.left_result_len ≡ 2048) × (uneven.bl_len ≡ 2047)
unfolding plan_lengths floor_log
uneven_lengths = (refl, refl)
