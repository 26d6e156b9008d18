-- ===== src/Dsp/Downsample/Keeps.antt =====
-- What `downsample` does not touch: its lengths, and the places beyond the block.
use native.Mathlib.Nat.{div-le_self}
use rtl_ais_android.Base.{
  ℕ, ◌+◌, ◌-◌, ◌*◌, ◌/◌, ◌^◌, ◌≤◌, ◌<◌, ◌≡◌, refl, ◌∙◌, arith, Array, List, [], get_or,
}
use rtl_ais_android.Base.Int.{ℤ}
use rtl_ais_android.Base.Loop.{for_loop, for_loop_inv}
use rtl_ais_android.Dsp.FifthOrder.{Taps, fifth_order}
use rtl_ais_android.Dsp.FifthOrder.Window.{fifth_order-IsDecimated}
use rtl_ais_android.Dsp.GenericFir.{History, generic_fir, cic_9_tables}
use rtl_ais_android.Dsp.GenericFir.Window.{generic_fir-IsFiltered}
use rtl_ais_android.Dsp.Downsample.{DownsampleState, pass, compensate, downsample}
use rtl_ais_android.Dsp.Downsample.Level.{long_at}

-- What the stage does not touch: its lengths, and the places beyond the block.
pub record Keeps (start d : DownsampleState) : Type 0 where
  pub len_in : d.len_in ≡ start.len_in
  pub len_out : d.len_out ≡ start.len_out
  pub passes : d.downsample_passes ≡ start.downsample_passes
  pub beyond : (x : ℕ) → start.len_in ≤ x → d.buf x ≡ start.buf x

module _ (start : DownsampleState) (long : 2 * 2 ^ start.downsample_passes ≤ start.len_in) where
  record KeepsAt (i : ℕ) (d : DownsampleState) : Type 0 where
    pub reached : i ≤ start.downsample_passes
    pub keeps : Keeps start d

  -- Two calls over the I and the Q values of the first n places.
  fifth_order_beyond :
      (n x : ℕ) (hi hq : Taps) (buf : Array ℤ)
      → 2 ≤ n
      → n ≤ x
      → (fifth_order 1 (n - 1) hq (fifth_order 0 n hi buf).buf).buf x ≡ buf x
  fifth_order_beyond n x hi hq buf some ge =
      (fifth_order-IsDecimated 1 (n - 1) hq (fifth_order 0 n hi buf).buf (omega arith)).untouched x
        (λ k lt. λ e. omega (arith, e, lt))
      ∙ (fifth_order-IsDecimated 0 n hi buf (omega arith)).untouched x
          (λ k lt. λ e. omega (arith, e, lt))

  generic_fir_beyond :
      (n x : ℕ) (fir : List ℤ) (hi hq : History) (buf : Array ℤ)
      → n ≤ x
      → (generic_fir 1 (n - 1) fir hq (generic_fir 0 n fir hi buf).buf).buf x ≡ buf x
  generic_fir_beyond n x fir hi hq buf ge =
      (generic_fir-IsFiltered 1 (n - 1) fir hq (generic_fir 0 n fir hi buf).buf).untouched x
        (λ k lt. λ e. omega (arith, e, lt))
      ∙ (generic_fir-IsFiltered 0 n fir hi buf).untouched x (λ k lt. λ e. omega (arith, e, lt))

  pass-KeepsAt :
      (i : ℕ) (d : DownsampleState)
      → i < start.downsample_passes
      → KeepsAt i d
      → KeepsAt (i + 1) (pass i d)
  unfolding pass
  pass-KeepsAt i d lt h = record {
    reached = omega arith;
    keeps = record {
      len_in = h.keeps.len_in;
      len_out = h.keeps.len_out;
      passes = h.keeps.passes;
      beyond = λ x ge.
          fifth_order_beyond (d.len_in / 2 ^ i) x (d.lp_i_hist i) (d.lp_q_hist i) d.buf
            (rw h.keeps.len_in (long_at start i long (omega arith)))
            (omega (arith, div-le_self d.len_in (2 ^ i), h.keeps.len_in))
          ∙ h.keeps.beyond x ge;
    };
  }

  pub downsample-Keeps : Keeps start (downsample start)
  unfolding downsample compensate
  downsample-Keeps =
      let (last, past, h) =
        for_loop_inv KeepsAt 1 start.downsample_passes pass (omega arith) pass-KeepsAt 0 start
          (record { reached = omega arith; keeps = same }) in
      let d = for_loop 0 1 start.downsample_passes pass start in
      record {
        len_in = h.keeps.len_in;
        len_out = h.keeps.len_out;
        passes = h.keeps.passes;
        beyond = λ x ge.
            generic_fir_beyond (d.len_in / 2 ^ d.downsample_passes) x
              (get_or cic_9_tables d.downsample_passes []) d.droop_i_hist d.droop_q_hist d.buf
              (omega (arith, div-le_self d.len_in (2 ^ d.downsample_passes), h.keeps.len_in))
            ∙ h.keeps.beyond x ge;
      }
    where
      same : Keeps start start
      same = record { len_in = refl; len_out = refl; passes = refl; beyond = λ x ge. refl }
