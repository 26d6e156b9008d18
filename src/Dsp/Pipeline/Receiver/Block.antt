-- ===== src/Dsp/Pipeline/Receiver/Block.antt =====
-- One block through the callback and a round of the thread, all stages together.
use mathlib.Core.Path.{subst}
use rtl_ais_android.Base.{
  ℕ, suc, ◌*◌, ◌^◌, ◌≤◌, ◌<◌, ◌≡◌, refl, sym, ◌∙◌, arith, Array, Agree, false,
}
use rtl_ais_android.Base.Int.{ℤ}
use rtl_ais_android.Base.Loop.{for_loop}
use rtl_ais_android.Dsp.Rotate.{rotate_90, rotate_m90}
use rtl_ais_android.Dsp.Rotate.Turns.{quarter_turns, quarter_turns_back}
use rtl_ais_android.Dsp.Downsample.{DownsampleState, downsample}
use rtl_ais_android.Dsp.Pipeline.{
  Pipeline, copied, store_round, store_block, rtlsdr_callback, pre_output, channel, take_block,
  finish_block, demod_round,
}
use rtl_ais_android.Dsp.Pipeline.Stores.{Beyond, Fits, downsample-StageKept}
use rtl_ais_android.Dsp.Pipeline.Stores.{StageKept, Kept-trans, Fits-Kept}
use rtl_ais_android.Dsp.Pipeline.Stores.Rounds.{callback-Kept, demod_round-Kept}
use rtl_ais_android.Dsp.Pipeline.Receiver.{SameStageSetup, SameSetup}
use rtl_ais_android.Dsp.Pipeline.Receiver.{Iq, received, lowered, turned, IsHeard, IsReceived}
use rtl_ais_android.Dsp.Pipeline.Receiver.Places.{
  Holds, stored-Holds, copied-Holds, rotate_90-Holds, rotate_m90-Holds, interleaved,
}
use rtl_ais_android.Dsp.Pipeline.Receiver.Channel.{
  downsample-stage, downsample-Holds, lowered-AreInt16, channel-IsHeard,
}

-- A stage takes `c * 2 ^ passes` whole samples to `c`.
pub record Divides (c : ℕ) (d : DownsampleState) : Type 0 where
  pub samples : d.len_in ≡ 2 * (c * 2 ^ d.downsample_passes)
  pub outputs : d.len_out ≡ 2 * c

-- The lengths of a signal path: `c` samples after the first stage and `suc n`, two or more, after the
-- stage of each channel, which has as many outputs or more.
pub record AreWhole (c n : ℕ) (p : Pipeline) : Type 0 where
  pub some_data : 0 < c
  pub both : Divides c p.both
  pub left : Divides (suc n) p.left
  pub right : Divides (suc n) p.right
  pub two : 1 ≤ n
  pub more : suc n ≤ p.bl_len
  pub outputs : p.bl_len ≤ p.br_len

module _ (up : Array ℤ → Array ℤ → ℕ → ℕ → Array ℤ)
    (up-Agree : (s s' t t' : Array ℤ) (n m : ℕ)
      → 2 ≤ n
      → n ≤ m
      → Agree n s s'
      → Agree m (up s t n m) (up s' t' n m))
    (up-Beyond : (s t : Array ℤ) (n m : ℕ) → Beyond m t (up s t n m)) (c n : ℕ) (bytes : Array ℕ)
    (p : Pipeline) (f : Fits p) (w : AreWhole c n p) where
  -- The first stage with the block stored.
  abbrev full : DownsampleState
  full = record p.both { buf = for_loop 0 1 p.both.len_in (store_round bytes) p.both.buf }

  full-Holds : Holds (c * 2 ^ p.both.downsample_passes) (received bytes) full.buf
  full-Holds = rw w.both.samples (stored-Holds bytes (c * 2 ^ p.both.downsample_passes) p.both.buf)

  abbrev band : Iq
  band = lowered p.both (received bytes)

  band-Holds : Holds c band (downsample full).buf
  band-Holds = downsample-Holds c full w.some_data w.both.samples (received bytes) full-Holds

  taken : (t : Array ℤ) → Holds c band (copied (downsample full).len_out (downsample full).buf t)
  taken t =
      let kept =
        downsample-StageKept full (record { long = f.both.long; eighth = f.both.eighth }) in
      copied-Holds c (downsample full).len_out band (downsample full).buf t
        (rw (kept.len_out, w.both.outputs) (omega arith)) band-Holds

  -- The channels take all of it.
  left_all : c ≡ suc n * 2 ^ p.left.downsample_passes
  left_all = omega (arith, w.left.samples, w.both.outputs, f.to_left)

  right_all : c ≡ suc n * 2 ^ p.right.downsample_passes
  right_all = omega (arith, w.right.samples, w.both.outputs, f.to_right)

  len_left : p.left.len_in ≡ 2 * c
  len_left = omega (arith, w.both.outputs, f.to_left)

  len_right : p.right.len_in ≡ 2 * c
  len_right = omega (arith, w.both.outputs, f.to_right)

  -- The two stages once they are turned.
  abbrev left_stage : DownsampleState
  left_stage = record p.left {
    buf =
        rotate_90 (copied (downsample full).len_out (downsample full).buf p.left.buf) p.left.len_in;
  }

  abbrev right_stage : DownsampleState
  right_stage = record p.right {
    buf =
        rotate_m90 (copied (downsample full).len_out (downsample full).buf p.right.buf)
          p.right.len_in;
  }

  left-Holds :
      Holds (suc n * 2 ^ p.left.downsample_passes) (turned quarter_turns band) left_stage.buf
  left-Holds =
      subst (λ k. Holds k (turned quarter_turns band) left_stage.buf) left_all
        (rw len_left
          (rotate_90-Holds c band _ (lowered-AreInt16 p.both (received bytes)) (taken p.left.buf)))

  right-Holds :
      Holds (suc n * 2 ^ p.right.downsample_passes) (turned quarter_turns_back band) right_stage.buf
  right-Holds =
      subst (λ k. Holds k (turned quarter_turns_back band) right_stage.buf) right_all
        (rw len_right (
          rotate_m90-Holds c band _ (lowered-AreInt16 p.both (received bytes)) (taken p.right.buf)))

  left_results : p.left_demod.result_len ≡ suc n
  left_results = omega (arith, f.left_demod.half, w.left.outputs, f.left_out)

  right_results : p.right_demod.result_len ≡ suc n
  right_results = omega (arith, f.right_demod.half, w.right.outputs, f.right_out)

  left-IsHeard :
      let r = channel up p.dc_filter left_stage p.left_demod p.buf_left p.bl_len in
      IsHeard up n p.dc_filter p.left p.left_demod p.bl_len
        (turned quarter_turns band)
        r.0
        r.1.0
        r.1.1
  left-IsHeard =
      let h =
        channel-IsHeard up up-Agree n p.dc_filter left_stage p.left_demod p.buf_left p.bl_len
          w.left.samples w.left.outputs (record { long = f.left.long; eighth = f.left.eighth })
          (sym f.left_out ∙ w.left.outputs) left_results (omega (arith, w.two)) w.more
          (turned quarter_turns band) left-Holds in
      record {
        stage = record { i_values = h.stage.i_values; q_values = h.stage.q_values };
        last_r = h.last_r;
        last_j = h.last_j;
        average = h.average;
        outputs = h.outputs;
      }

  right-IsHeard :
      let r = channel up p.dc_filter right_stage p.right_demod p.buf_right p.br_len in
      IsHeard up n p.dc_filter p.right p.right_demod p.br_len
        (turned quarter_turns_back band)
        r.0
        r.1.0
        r.1.1
  right-IsHeard =
      let h =
        channel-IsHeard up up-Agree n p.dc_filter right_stage p.right_demod p.buf_right p.br_len
          w.right.samples w.right.outputs (record { long = f.right.long; eighth = f.right.eighth })
          (sym f.right_out ∙ w.right.outputs) right_results (omega (arith, w.two))
          (omega (arith, w.more, w.outputs)) (turned quarter_turns_back band) right-Holds in
      record {
        stage = record { i_values = h.stage.i_values; q_values = h.stage.q_values };
        last_r = h.last_r;
        last_j = h.last_j;
        average = h.average;
        outputs = h.outputs;
      }

  stage-SameStageSetup : (d d' : DownsampleState) → StageKept d d' → SameStageSetup d d'
  stage-SameStageSetup d d' k = record { len_in = k.len_in; len_out = k.len_out; passes = k.passes }

  block-SameSetup : SameSetup p (demod_round up (rtlsdr_callback false bytes p.both.len_in p))
  unfolding demod_round rtlsdr_callback store_block take_block finish_block pre_output
  block-SameSetup =
      let stored = rtlsdr_callback false bytes p.both.len_in p in
      let first = callback-Kept bytes p in
      let k =
        Kept-trans p stored (demod_round up stored) first
          (demod_round-Kept up up-Beyond stored (Fits-Kept p stored f first)) in
      record {
        both = stage-SameStageSetup _ _ k.both;
        left = stage-SameStageSetup _ _ k.left;
        right = stage-SameStageSetup _ _ k.right;
        left_buf = k.left_demod.buf_len;
        right_buf = k.right_demod.buf_len;
        left_results = k.left_demod.result_len;
        right_results = k.right_demod.result_len;
        bl_len = k.bl_len;
        br_len = k.br_len;
        dc_filter = refl;
      }

  -- A block of bytes through the callback and a round of the thread, where the stages take whole
  -- samples to whole samples: it is received as a pair of signals, each channel hears its own turn of
  -- the band, and the outputs of the two are interleaved and handed on.
  pub block-IsReceived :
      IsReceived up c n bytes p (demod_round up (rtlsdr_callback false bytes p.both.len_in p))
  unfolding demod_round rtlsdr_callback store_block take_block finish_block pre_output
  block-IsReceived =
      let first = downsample-stage c full w.some_data w.both.samples (received bytes) full-Holds in
      record {
        setup = block-SameSetup;
        first = record { i_values = first.i_values; q_values = first.q_values };
        left = left-IsHeard;
        right = right-IsHeard;
        stereo = λ m lt. interleaved _ _ p.result p.bl_len m lt;
        handed = refl;
      }
