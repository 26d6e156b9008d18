-- ===== src/Dsp/Pipeline/Stores/Rounds.antt =====
-- The callback and the rounds of the thread, whatever blocks arrive.
use rtl_ais_android.Base.{
  ℕ, ◌+◌, ◌*◌, ◌<◌, ◌≡◌, refl, ◌∙◌, arith, Array, update, update_ne, List, [], ◌∷◌, Bool, true,
  false, if◌then◌else◌,
}
use rtl_ais_android.Base.Int.{ℤ}
use rtl_ais_android.Base.Loop.{for_loop, for_loop_inv}
use rtl_ais_android.Dsp.Rotate.{rotate_90, rotate_m90}
use rtl_ais_android.Dsp.Downsample.{DownsampleState, downsample}
use rtl_ais_android.Dsp.Demod.{DemodState, demodulate, dc_block_filter}
use rtl_ais_android.Dsp.Pipeline.{
  Pipeline, copied, store_round, store_block, rtlsdr_callback, interleave_round, pre_output,
  channel, take_block, finish_block, demod_round,
}
use rtl_ais_android.Dsp.Pipeline.Levels.{feed}
use rtl_ais_android.Dsp.Pipeline.Stores.{
  Beyond, StageFits, StageKept, DemodFits, DemodKept, Fits, Kept, downsample-StageKept,
  rotate_90-Beyond, rotate_m90-Beyond, demodulate-DemodKept, dc_block_filter-DemodKept,
  StageKept-trans, DemodKept-trans, Kept-trans, StageFits-Kept, DemodFits-Kept, Fits-Kept,
}

copied-Beyond : (n m : ℕ) (s t : Array ℤ) → n ≡ m → Beyond m t (copied n s t)
copied-Beyond n m s t e x ge = ground arith

same_stage : (d : DownsampleState) → StageKept d d
same_stage d = record { len_in = refl; len_out = refl; passes = refl; buf = λ x ge. refl }

same_demod : (d : DemodState) → DemodKept d d
same_demod d = record {
  buf_len = refl;
  result_len = refl;
  buf = λ x ge. refl;
  result = λ x ge. refl;
}

pub with_buf :
    (d : DownsampleState) (buf : Array ℤ)
    → Beyond d.len_in d.buf buf
    → StageKept d (record d { buf = buf })
with_buf d buf h = record { len_in = refl; len_out = refl; passes = refl; buf = h }

dc_if : (b : Bool) (d : DemodState) → DemodKept d (if b then dc_block_filter d else d)
dc_if true d = dc_block_filter-DemodKept d
dc_if false d = same_demod d

interleave_round-Beyond :
    (l r : Array ℤ) (n : ℕ) (old : Array ℤ) (i : ℕ) (result : Array ℤ)
    → i < n
    → Beyond (2 * n) old result
    → Beyond (2 * n) old (interleave_round l r i result)
unfolding interleave_round
interleave_round-Beyond l r n old i result lt h x ge =
    update_ne (update result (i * 2) (l i)) (i * 2 + 1) x _ (omega arith)
    ∙ update_ne result (i * 2) x _ (omega arith)
    ∙ h x ge

interleaved-Beyond :
    (l r : Array ℤ) (n : ℕ) (old : Array ℤ)
    → Beyond (2 * n) old (for_loop 0 1 n (interleave_round l r) old)
interleaved-Beyond l r n old =
    let (last, past, h) =
      for_loop_inv (λ i result. Beyond (2 * n) old result) 1 n (interleave_round l r) (omega arith)
        (interleave_round-Beyond l r n old) 0 old (λ x ge. refl) in
    h

store_round-Beyond :
    (bytes : Array ℕ) (n : ℕ) (old : Array ℤ) (i : ℕ) (buf : Array ℤ)
    → i < n
    → Beyond n old buf
    → Beyond n old (store_round bytes i buf)
unfolding store_round
store_round-Beyond bytes n old i buf lt h x ge = update_ne buf i x _ (omega arith) ∙ h x ge

stored-Beyond :
    (bytes : Array ℕ) (n : ℕ) (old : Array ℤ)
    → Beyond n old (for_loop 0 1 n (store_round bytes) old)
stored-Beyond bytes n old =
    let (last, past, h) =
      for_loop_inv (λ i buf. Beyond n old buf) 1 n (store_round bytes) (omega arith)
        (store_round-Beyond bytes n old) 0 old (λ x ge. refl) in
    h

pub callback-Kept :
    (bytes : Array ℕ) (p : Pipeline) → Kept p (rtlsdr_callback false bytes p.both.len_in p)
unfolding rtlsdr_callback store_block
callback-Kept bytes p = record {
  both = with_buf p.both _ (stored-Beyond bytes p.both.len_in p.both.buf);
  left = same_stage p.left;
  right = same_stage p.right;
  left_demod = same_demod p.left_demod;
  right_demod = same_demod p.right_demod;
  bl_len = refl;
  br_len = refl;
  buf_left = λ x ge. refl;
  buf_right = λ x ge. refl;
  result = λ x ge. refl;
}

module _ (up : Array ℤ → Array ℤ → ℕ → ℕ → Array ℤ)
    (up-Beyond : (s t : Array ℤ) (n m : ℕ) → Beyond m t (up s t n m)) where
  pub take_block-Kept : (p : Pipeline) → Fits p → Kept p (take_block up p)
  unfolding take_block
  take_block-Kept p f =
      let h = downsample-StageKept p.both f.both in
      record {
        both = h;
        left =
            with_buf p.left _ (copied-Beyond _ p.left.len_in _ p.left.buf (h.len_out ∙ f.to_left));
        right =
            with_buf p.right _
              (copied-Beyond _ p.right.len_in _ p.right.buf (h.len_out ∙ f.to_right));
        left_demod = same_demod p.left_demod;
        right_demod = same_demod p.right_demod;
        bl_len = refl;
        br_len = refl;
        buf_left = λ x ge. refl;
        buf_right = λ x ge. refl;
        result = λ x ge. refl;
      }

  module _ (dc : Bool) (stage : DownsampleState) (demod : DemodState) (out : Array ℤ) (len : ℕ)
      (fits : StageFits stage) (demod_fits : DemodFits demod)
      (same : stage.len_out ≡ demod.buf_len) where
    abbrev filled : DemodState
    filled = record demod {
      buf = copied (downsample stage).len_out (downsample stage).buf demod.buf;
    }

    filled-DemodKept : DemodKept demod filled
    filled-DemodKept = record {
      buf_len = refl;
      result_len = refl;
      buf =
          copied-Beyond _ demod.buf_len _ demod.buf
            ((downsample-StageKept stage fits).len_out ∙ same);
      result = λ x ge. refl;
    }

    channel-Kept :
        let c = channel up dc stage demod out len in
        StageKept stage c.0 × DemodKept demod c.1.0 × Beyond len out c.1.1
    unfolding channel
    channel-Kept = (
      downsample-StageKept stage fits,
      DemodKept-trans demod (demodulate filled) _
          (DemodKept-trans demod filled (demodulate filled) filled-DemodKept
            (demodulate-DemodKept filled (DemodFits-Kept demod filled demod_fits filled-DemodKept)))
          (dc_if dc (demodulate filled)),
      up-Beyond _ out _ len,
    )

  module _ (p : Pipeline) (f : Fits p) where
    abbrev pub turned_left : DownsampleState
    turned_left = record p.left { buf = rotate_90 p.left.buf p.left.len_in }

    abbrev pub turned_right : DownsampleState
    turned_right = record p.right { buf = rotate_m90 p.right.buf p.right.len_in }

    pub left_turned : StageKept p.left turned_left
    left_turned = with_buf p.left _ (rotate_90-Beyond p.left.buf p.left.len_in f.left.eighth)

    pub right_turned : StageKept p.right turned_right
    right_turned = with_buf p.right _ (rotate_m90-Beyond p.right.buf p.right.len_in f.right.eighth)

    finish_block-Kept : Kept p (finish_block up p)
    unfolding finish_block pre_output
    finish_block-Kept =
        let (l, ld, lb) =
          channel-Kept p.dc_filter turned_left p.left_demod p.buf_left p.bl_len
            (StageFits-Kept p.left turned_left f.left left_turned) f.left_demod f.left_out in
        let (r, rd, rb) =
          channel-Kept p.dc_filter turned_right p.right_demod p.buf_right p.br_len
            (StageFits-Kept p.right turned_right f.right right_turned) f.right_demod f.right_out in
        record {
          both = same_stage p.both;
          left = StageKept-trans p.left turned_left _ left_turned l;
          right = StageKept-trans p.right turned_right _ right_turned r;
          left_demod = ld;
          right_demod = rd;
          bl_len = refl;
          br_len = refl;
          buf_left = lb;
          buf_right = rb;
          result = interleaved-Beyond _ _ p.bl_len p.result;
        }

  pub demod_round-Kept : (p : Pipeline) → Fits p → Kept p (demod_round up p)
  unfolding demod_round
  demod_round-Kept p f =
      let taken = take_block-Kept p f in
      Kept-trans p (take_block up p) _ taken
        (finish_block-Kept (take_block up p) (Fits-Kept p (take_block up p) f taken))

  same_pipeline : (p : Pipeline) → Kept p p
  same_pipeline p = record {
    both = same_stage p.both;
    left = same_stage p.left;
    right = same_stage p.right;
    left_demod = same_demod p.left_demod;
    right_demod = same_demod p.right_demod;
    bl_len = refl;
    br_len = refl;
    buf_left = λ x ge. refl;
    buf_right = λ x ge. refl;
    result = λ x ge. refl;
  }

  -- Whatever blocks arrive, each as long as the first stage, where the lengths of the stages agree and
  -- the interpolation stores only its outputs: the callback and the rounds of the thread change no
  -- length, and in no buffer a value beyond the length that it was allocated with.
  pub feed-Kept : (blocks : List (Array ℕ)) (p : Pipeline) → Fits p → Kept p (feed up blocks p)
  unfolding feed
  feed-Kept [] p f = same_pipeline p
  feed-Kept (bytes ∷ later) p f =
      let stored = rtlsdr_callback false bytes p.both.len_in p in
      let first = callback-Kept bytes p in
      let f' = Fits-Kept p stored f first in
      let one = Kept-trans p stored (demod_round up stored) first (demod_round-Kept stored f') in
      Kept-trans p (demod_round up stored) _ one
        (feed-Kept later (demod_round up stored) (Fits-Kept p (demod_round up stored) f one))
