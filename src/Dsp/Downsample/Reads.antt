-- ===== src/Dsp/Downsample/Reads.antt =====
-- What `downsample` reads: its histories, and the block up to its length.
use mathlib.Core.Path.{subst}
use native.Mathlib.Nat.{div-le_self}
use rtl_ais_android.Base.{
  ℕ, ◌-◌, ◌*◌, ◌/◌, ◌^◌, ◌≤◌, ◌<◌, ◌≡◌, refl, ap, arith, Array, update, Agree, List, [], get_or,
}
use rtl_ais_android.Base.Int.{ℤ}
use rtl_ais_android.Base.Loop.{for_loop, for_loop_rel}
use rtl_ais_android.Dsp.FifthOrder.{Taps, fifth_order}
use rtl_ais_android.Dsp.FifthOrder.Reads.{fifth_order-SamePass}
use rtl_ais_android.Dsp.GenericFir.{History, generic_fir, cic_9_tables}
use rtl_ais_android.Dsp.GenericFir.Reads.{generic_fir-SameRun}
use rtl_ais_android.Dsp.Downsample.{DownsampleState, pass, compensate, downsample}
use rtl_ais_android.Dsp.Downsample.Level.{long_at}

-- Two stages that differ at most beyond the length of their blocks, and in their rates.
pub record SameStage (d e : DownsampleState) : Type 0 where
  pub len_in : d.len_in ≡ e.len_in
  pub len_out : d.len_out ≡ e.len_out
  pub passes : d.downsample_passes ≡ e.downsample_passes
  pub buf : Agree d.len_in d.buf e.buf
  pub lp_i : d.lp_i_hist ≡ e.lp_i_hist
  pub lp_q : d.lp_q_hist ≡ e.lp_q_hist
  pub droop_i : d.droop_i_hist ≡ e.droop_i_hist
  pub droop_q : d.droop_q_hist ≡ e.droop_q_hist

-- Both calls over one block, the I values and then the Q values.
pair-fifth_order :
    (n len : ℕ) (hi hq : Taps) (a b : Array ℤ)
    → 2 ≤ n
    → n ≤ len
    → Agree len a b
    → let r = fifth_order 0 n hi a in
      let s = fifth_order 0 n hi b in
      let r' = fifth_order 1 (n - 1) hq r.buf in
      let s' = fifth_order 1 (n - 1) hq s.buf in
      (r.taps ≡ s.taps) × (r'.taps ≡ s'.taps) × Agree len r'.buf s'.buf
pair-fifth_order n len hi hq a b long le same =
    let (taps, same_i) = fifth_order-SamePass 0 n len (omega arith) hi a b (omega arith) same in
    let (taps', same_q) =
      fifth_order-SamePass 1 (n - 1) len (omega arith) hq _ _ (omega arith) same_i in
    (taps, taps', same_q)

pair-generic_fir :
    (n len : ℕ) (fir : List ℤ) (hi hq : History) (a b : Array ℤ)
    → 1 ≤ n
    → n ≤ len
    → Agree len a b
    → let r = generic_fir 0 n fir hi a in
      let s = generic_fir 0 n fir hi b in
      let r' = generic_fir 1 (n - 1) fir hq r.buf in
      let s' = generic_fir 1 (n - 1) fir hq s.buf in
      (r.hist ≡ s.hist) × (r'.hist ≡ s'.hist) × Agree len r'.buf s'.buf
pair-generic_fir n len fir hi hq a b some_data le same =
    let (hist, same_i) = generic_fir-SameRun 0 n len (omega arith) fir hi a b same in
    let (hist', same_q) = generic_fir-SameRun 1 (n - 1) len (omega arith) fir hq _ _ same_i in
    (hist, hist', same_q)

module _ (start : DownsampleState) (long : 2 * 2 ^ start.downsample_passes ≤ start.len_in) where
  record Alike (d e : DownsampleState) : Type 0 where
    pub len : d.len_in ≡ start.len_in
    pub number : d.downsample_passes ≡ start.downsample_passes
    pub same : SameStage d e

  pass-Alike :
      (i : ℕ) (d e : DownsampleState)
      → i < start.downsample_passes
      → Alike d e
      → Alike (pass i d) (pass i e)
  unfolding pass
  pass-Alike i d e lt h =
      let s = h.same in
      let n = d.len_in / 2 ^ i in
      let (taps, taps', block) =
        pair-fifth_order n d.len_in (d.lp_i_hist i) (d.lp_q_hist i) d.buf e.buf
          (rw h.len (long_at start i long (omega arith))) (div-le_self d.len_in (2 ^ i)) s.buf in
      record {
        len = h.len;
        number = h.number;
        same = record {
          len_in = s.len_in;
          len_out = s.len_out;
          passes = s.passes;
          buf = rw (← s.len_in, ← s.lp_i, ← s.lp_q) block;
          lp_i = rw (← s.len_in, ← s.lp_i) (ap (λ t. update d.lp_i_hist i t) taps);
          lp_q = rw (← s.len_in, ← s.lp_q, ← s.lp_i) (ap (λ t. update d.lp_q_hist i t) taps');
          droop_i = s.droop_i;
          droop_q = s.droop_q;
        };
      }

  compensate-SameStage :
      (d e : DownsampleState) → Alike d e → SameStage (compensate d) (compensate e)
  unfolding compensate
  compensate-SameStage d e h =
      let s = h.same in
      let n = d.len_in / 2 ^ d.downsample_passes in
      let fir = get_or cic_9_tables d.downsample_passes [] in
      let two : 2 ≤ n =
        rw (h.len, h.number) (long_at start start.downsample_passes long (omega arith)) in
      let some_data : 1 ≤ n = omega (arith, two) in
      let (hist, hist', block) =
        pair-generic_fir n d.len_in fir d.droop_i_hist d.droop_q_hist d.buf e.buf some_data
          (div-le_self d.len_in (2 ^ d.downsample_passes)) s.buf in
      record {
        len_in = s.len_in;
        len_out = s.len_out;
        passes = s.passes;
        buf = rw (← s.len_in, ← s.passes, ← s.droop_i, ← s.droop_q) block;
        lp_i = s.lp_i;
        lp_q = s.lp_q;
        droop_i = rw (← s.len_in, ← s.passes, ← s.droop_i) hist;
        droop_q = rw (← s.len_in, ← s.passes, ← s.droop_i, ← s.droop_q) hist';
      }

-- Two stages that differ only beyond the length of their blocks leave stages that do, and the same
-- histories: nothing beyond the block is read.
pub downsample-SameStage :
    (d e : DownsampleState)
    → 2 * 2 ^ d.downsample_passes ≤ d.len_in
    → SameStage d e
    → SameStage (downsample d) (downsample e)
unfolding downsample
downsample-SameStage d e long same =
    let (last, past, after) =
      for_loop_rel (λ i s t. Alike d long s t) 1 d.downsample_passes pass pass (omega arith)
        (pass-Alike d long) 0 d e (record { len = refl; number = refl; same = same }) in
    subst
      (λ n.
        SameStage (compensate (for_loop 0 1 d.downsample_passes pass d))
          (compensate (for_loop 0 1 n pass e)))
      same.passes (compensate-SameStage d long _ _ after)
