-- ===== src/Session/Rates/Levels.antt =====
-- The plan and the signal path together: the level of the signal.
use native.Mathlib.Nat.{pow-le-pow_right}
use rtl_ais_android.Base.{ℕ, ◌-◌, ◌*◌, ◌^◌, ◌≤◌, ◌≡◌, ap, ◌∙◌, arith, Array, List, ◌∷◌}
use rtl_ais_android.Base.Int.{ℤ, pos, Within}
use rtl_ais_android.Dsp.FifthOrder.Bounds.{TapsWithin, BlockWithin}
use rtl_ais_android.Dsp.GenericFir.{History}
use rtl_ais_android.Dsp.GenericFir.Bounds.{HistoryWithin}
use rtl_ais_android.Dsp.Downsample.{DownsampleState, downsample_init}
use rtl_ais_android.Dsp.Downsample.Level.{HistoriesWithin}
use rtl_ais_android.Dsp.Pipeline.{Pipeline}
use rtl_ais_android.Dsp.Pipeline.Levels.{AreBytes, Ready, feed, feed-Taken}
use rtl_ais_android.Session.Rates.{Logarithm, Tuned, Plan, planned, plan}
use rtl_ais_android.Session.Rates.Laws.{plan-few}

-- A static array of C starts with zeros.
abbrev pub no_history : History
no_history = record {
  h0 = pos 0;
  h1 = pos 0;
  h2 = pos 0;
  h3 = pos 0;
  h4 = pos 0;
  h5 = pos 0;
  h6 = pos 0;
  h7 = pos 0;
  h8 = pos 0;
}

-- The first stage of the plan before `downsample_init`.
pub record IsPlanned (p : Plan) (d : DownsampleState) : Type 0 where
  pub len_in : d.len_in ≡ p.both.len_in
  pub same_passes : d.downsample_passes ≡ p.both.downsample_passes
  pub no_i : d.droop_i_hist ≡ no_history
  pub no_q : d.droop_q_hist ≡ no_history

no_history-HistoryWithin : (b : ℕ) → HistoryWithin b no_history
no_history-HistoryWithin b = record {
  w0 = (omega arith, omega arith);
  w1 = (omega arith, omega arith);
  w2 = (omega arith, omega arith);
  w3 = (omega arith, omega arith);
  w4 = (omega arith, omega arith);
  w5 = (omega arith, omega arith);
  w6 = (omega arith, omega arith);
  w7 = (omega arith, omega arith);
  w8 = (omega arith, omega arith);
}

no_taps-TapsWithin :
    (b i : ℕ) (fresh : Array ℤ) (d : DownsampleState)
    → TapsWithin b ((downsample_init fresh d).lp_i_hist i)
      × TapsWithin b ((downsample_init fresh d).lp_q_hist i)
unfolding downsample_init
no_taps-TapsWithin b i fresh d = (none, none)
  where
    none :
        TapsWithin b (record { a = pos 0; b = pos 0; c = pos 0; d = pos 0; e = pos 0; f = pos 0 })
    none = record {
      a = (omega arith, omega arith);
      b' = (omega arith, omega arith);
      c = (omega arith, omega arith);
      d = (omega arith, omega arith);
      e = (omega arith, omega arith);
      f = (omega arith, omega arith);
    }

init-HistoriesWithin :
    (p : Plan) (fresh : Array ℤ) (d : DownsampleState)
    → IsPlanned p d
    → HistoriesWithin 128 (downsample_init fresh d)
unfolding downsample_init
init-HistoriesWithin p fresh d h = record {
  lp_i = λ i. (no_taps-TapsWithin (128 * 2 ^ i) i fresh d).0;
  lp_q = λ i. (no_taps-TapsWithin (128 * 2 ^ i) i fresh d).1;
  droop_i = rw h.no_i (no_history-HistoryWithin _);
  droop_q = rw h.no_q (no_history-HistoryWithin _);
}

module _ (log : Logarithm) (o : Tuned) (p : Plan) (accepted : plan log o ≡ planned p)
    (apart : 18751 ≤ o.right_freq - o.left_freq) where
  pub few : (p.both.downsample_passes ≤ 5) × (p.both.len_in ≡ 262144)
  few = plan-few log o p accepted 5 18751 (omega arith) apart

  pub power : 2 ^ p.both.downsample_passes ≤ 32
  power = pow-le-pow_right {n = 2} (omega arith) {i = p.both.downsample_passes} {j = 5} few.0

  module _ (fresh : Array ℤ) (d : DownsampleState) (begins : IsPlanned p d)
      (rest : (x : ℕ) → 262144 ≤ x → Within 128 (fresh x)) where
    init-Ready :
        (up : Array ℤ → Array ℤ → ℕ → ℕ → Array ℤ) (q : Pipeline)
        → q.both ≡ downsample_init fresh d
        → Ready up p.both.len_in p.both.downsample_passes
            (omega (arith, few.1, power))
            (omega (arith, power))
            q
    unfolding downsample_init
    init-Ready up q e = record {
      len_in = ap (λ s. s.len_in) e ∙ begins.len_in;
      same_passes = ap (λ s. s.downsample_passes) e ∙ begins.same_passes;
      histories = rw e (init-HistoriesWithin p fresh d begins);
      beyond = λ x ge. rw e (rest x (omega (arith, few.1, ge)));
    }

    -- In a run whose plan was accepted and whose channels are more than 18750 Hz apart, from the
    -- state that `downsample_init` leaves: after one block of bytes or more, every I and Q value
    -- that the first stage leaves is within 20480, which an int16_t holds.
    pub planned-levels :
        (up : Array ℤ → Array ℤ → ℕ → ℕ → Array ℤ) (q : Pipeline)
        → q.both ≡ downsample_init fresh d
        → (bytes : Array ℕ) (later : List (Array ℕ)) → AreBytes (bytes ∷ later)
        → let q' = feed up (bytes ∷ later) q in
          BlockWithin 20480 0 q'.both.buf × BlockWithin 20480 1 q'.both.buf
    planned-levels up q e bytes later eight =
        let taken =
          feed-Taken up p.both.len_in p.both.downsample_passes (omega (arith, few.1, power))
            (omega (arith, power)) bytes later q eight (init-Ready up q e) in
        (λ k. widen _ (taken.i_level k), λ k. widen _ (taken.q_level k))
      where
        widen : (z : ℤ) → Within (5 * (128 * 2 ^ p.both.downsample_passes)) z → Within 20480 z
        widen z w = (omega (arith, power, w.0), omega (arith, power, w.1))
