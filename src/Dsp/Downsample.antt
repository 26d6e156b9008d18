-- ===== src/Dsp/Downsample.antt =====
-- `downsample` and `downsample_init` of app/src/main/jni/rtl_ais_andro.c: the decimation of one
-- block by a power of two, then the compensation of the droop.
pub mod Level
pub mod Keeps
pub mod Reads
pub mod Decimation
use rtl_ais_android.Base.{ℕ, ◌+◌, ◌-◌, ◌/◌, ◌^◌, Array, update, List, [], get_or}
use rtl_ais_android.Base.Int.{ℤ, pos}
use rtl_ais_android.Base.Loop.{for_loop}
use rtl_ais_android.Dsp.FifthOrder
use rtl_ais_android.Dsp.FifthOrder.{Taps, Pass, fifth_order}
use rtl_ais_android.Dsp.GenericFir
use rtl_ais_android.Dsp.GenericFir.{History, Run, generic_fir, cic_9_tables}

-- `struct downsample_state`. `lp_i_hist` and `lp_q_hist` have ten rows.
pub record DownsampleState : Type 0 where
  pub buf : Array ℤ
  pub len_in : ℕ
  pub len_out : ℕ
  pub rate_in : ℕ
  pub rate_out : ℕ
  pub downsample : ℕ
  pub downsample_passes : ℕ
  pub lp_i_hist : Array Taps
  pub lp_q_hist : Array Taps
  pub droop_i_hist : History
  pub droop_q_hist : History

abbrev no_taps : Taps
no_taps = record { a = pos 0; b = pos 0; c = pos 0; d = pos 0; e = pos 0; f = pos 0 }

-- The block comes from `malloc`, so its values are whatever `fresh` says; the droop histories are
-- not touched.
unfoldable pub downsample_init : Array ℤ → DownsampleState → DownsampleState
downsample_init fresh dss = record dss {
  buf = fresh;
  rate_out = dss.rate_in / dss.downsample;
  len_out = dss.len_in / dss.downsample;
  lp_i_hist = λ i. no_taps;
  lp_q_hist = λ i. no_taps;
}

-- One round of the loop: pass i over the I values, then over the Q values.
unfoldable pub pass : ℕ → DownsampleState → DownsampleState
pass i d =
    let r = fifth_order 0 (d.len_in / 2 ^ i) (d.lp_i_hist i) d.buf in
    let r' = fifth_order 1 (d.len_in / 2 ^ i - 1) (d.lp_q_hist i) r.buf in
    record d {
      buf = r'.buf;
      lp_i_hist = update d.lp_i_hist i r.taps;
      lp_q_hist = update d.lp_q_hist i r'.taps;
    }

-- The droop compensation after the loop.
unfoldable pub compensate : DownsampleState → DownsampleState
compensate d =
    let ds_p = d.downsample_passes in
    let fir = get_or cic_9_tables ds_p [] in
    let r = generic_fir 0 (d.len_in / 2 ^ ds_p) fir d.droop_i_hist d.buf in
    let r' = generic_fir 1 (d.len_in / 2 ^ ds_p - 1) fir d.droop_q_hist r.buf in
    record d { buf = r'.buf; droop_i_hist = r.hist; droop_q_hist = r'.hist }

unfoldable pub downsample : DownsampleState → DownsampleState
unfolding pass compensate for_loop
downsample d = compensate (for_loop 0 1 d.downsample_passes pass d)
