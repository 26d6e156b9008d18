-- ===== src/Dsp/Pipeline/Reads/Rounds.antt =====
-- What the callback and the rounds of the thread read: what they carry from block to block, and the
-- blocks up to the length of the first stage.
use rtl_ais_android.Base.{ℕ, ◌≤◌, ◌≡◌, ◌∙◌, arith, Array, Agree, List, [], ◌∷◌, false}
use rtl_ais_android.Base.Int.{ℤ}
use rtl_ais_android.Dsp.Rotate.{rotate_90, rotate_m90}
use rtl_ais_android.Dsp.Rotate.Reads.{rotate_90-Agree, rotate_m90-Agree}
use rtl_ais_android.Dsp.Downsample.{downsample}
use rtl_ais_android.Dsp.Downsample.Reads.{downsample-SameStage}
use rtl_ais_android.Dsp.Demod.Reads.{SameCarried}
use rtl_ais_android.Dsp.Pipeline.{
  Pipeline, store_block, rtlsdr_callback, pre_output, channel, take_block, finish_block,
  demod_round,
}
use rtl_ais_android.Dsp.Pipeline.Levels.{feed}
use rtl_ais_android.Dsp.Pipeline.Stores.{
  Beyond, Fits, downsample-StageKept, Fits-Kept, StageFits-Kept,
}
use rtl_ais_android.Dsp.Pipeline.Stores.Rounds.{
  callback-Kept, take_block-Kept, demod_round-Kept, left_turned, right_turned,
}
use rtl_ais_android.Dsp.Pipeline.Reads.State.{SameBlocks, SameState, Sources, Sources-Kept}
use rtl_ais_android.Dsp.Pipeline.Reads.{
  SameHistories, SameStage-SameHistories, SameHistories-SameStage, with_buf-SameHistories,
  copied-Agree, interleaved-Agree, stored-Agree, channel-Same,
}

callback-Same :
    (bytes bytes' : Array ℕ) (p q : Pipeline)
    → Agree p.both.len_in bytes bytes'
    → SameState p q
    → let p' = rtlsdr_callback false bytes p.both.len_in p in
      let q' = rtlsdr_callback false bytes' q.both.len_in q in
      SameState p' q' × Agree p.both.len_in p'.both.buf q'.both.buf
unfolding rtlsdr_callback store_block
callback-Same bytes bytes' p q given s = (
  record {
    both = with_buf-SameHistories p.both q.both _ _ s.both;
    left = s.left;
    right = s.right;
    left_demod = s.left_demod;
    right_demod = s.right_demod;
    bl_len = s.bl_len;
    br_len = s.br_len;
    dc_filter = s.dc_filter;
    handed = s.handed;
  },
  stored-Agree p.both.len_in q.both.len_in bytes bytes' p.both.buf q.both.buf s.both.len_in given,
)

module _ (up : Array ℤ → Array ℤ → ℕ → ℕ → Array ℤ)
    (up-Agree : (s s' t t' : Array ℤ) (n m : ℕ)
      → 2 ≤ n
      → n ≤ m
      → Agree n s s'
      → Agree m (up s t n m) (up s' t' n m))
    (up-Beyond : (s t : Array ℤ) (n m : ℕ) → Beyond m t (up s t n m)) where
  take_block-Same :
      (p q : Pipeline)
      → Fits p
      → Sources p
      → SameState p q
      → Agree p.both.len_in p.both.buf q.both.buf
      → let p' = take_block up p in
        let q' = take_block up q in
        SameState p' q'
        × Agree p.left.len_in p'.left.buf q'.left.buf
        × Agree p.right.len_in p'.right.buf q'.right.buf
  unfolding take_block
  take_block-Same p q f inside s same =
      let b =
        downsample-SameStage p.both q.both f.both.long
          (SameHistories-SameStage p.both q.both p.both.buf q.both.buf s.both same) in
      let kept = downsample-StageKept p.both f.both in
      let le : (downsample p.both).len_out ≤ (downsample p.both).len_in =
        rw (kept.len_out, kept.len_in) inside.both_out in
      (
        record {
          both = SameStage-SameHistories _ _ b;
          left = with_buf-SameHistories p.left q.left _ _ s.left;
          right = with_buf-SameHistories p.right q.right _ _ s.right;
          left_demod = s.left_demod;
          right_demod = s.right_demod;
          bl_len = s.bl_len;
          br_len = s.br_len;
          dc_filter = s.dc_filter;
          handed = s.handed;
        },
        copied-Agree (downsample p.both).len_out (downsample q.both).len_out
            (downsample p.both).len_in p.left.len_in _ _ _ _ b.len_out
            (rw (kept.len_out, f.to_left) (omega arith)) le b.buf,
        copied-Agree (downsample p.both).len_out (downsample q.both).len_out
            (downsample p.both).len_in p.right.len_in _ _ _ _ b.len_out
            (rw (kept.len_out, f.to_right) (omega arith)) le b.buf,
      )

  module _ (p q : Pipeline) (f : Fits p) (inside : Sources p) (s : SameState p q)
      (same_left : Agree p.left.len_in p.left.buf q.left.buf)
      (same_right : Agree p.right.len_in p.right.buf q.right.buf) where
    left-Same :
        let c =
          channel up p.dc_filter
            (record p.left { buf = rotate_90 p.left.buf p.left.len_in })
            p.left_demod
            p.buf_left
            p.bl_len in
        let c' =
          channel up q.dc_filter
            (record q.left { buf = rotate_90 q.left.buf q.left.len_in })
            q.left_demod
            q.buf_left
            q.bl_len in
        SameHistories c.0 c'.0 × SameCarried c.1.0 c'.1.0 × Agree p.bl_len c.1.1 c'.1.1
    left-Same =
        rw (← s.dc_filter, ← s.bl_len)
          (channel-Same up up-Agree p.dc_filter _ _ p.left_demod q.left_demod p.buf_left q.buf_left
            p.bl_len (StageFits-Kept p.left _ f.left (left_turned up up-Beyond p f)) inside.left_out
            (SameHistories-SameStage p.left q.left _ _ s.left
              (rw (← s.left.len_in) (rotate_90-Agree p.left.len_in _ _ f.left.eighth same_left)))
            f.left_demod f.left_out s.left_demod inside.left_two inside.left_more)

    right-Same :
        let c =
          channel up p.dc_filter
            (record p.right { buf = rotate_m90 p.right.buf p.right.len_in })
            p.right_demod
            p.buf_right
            p.br_len in
        let c' =
          channel up q.dc_filter
            (record q.right { buf = rotate_m90 q.right.buf q.right.len_in })
            q.right_demod
            q.buf_right
            q.br_len in
        SameHistories c.0 c'.0 × SameCarried c.1.0 c'.1.0 × Agree p.br_len c.1.1 c'.1.1
    right-Same =
        rw (← s.dc_filter, ← s.br_len)
          (channel-Same up up-Agree p.dc_filter _ _ p.right_demod q.right_demod p.buf_right
            q.buf_right p.br_len (StageFits-Kept p.right _ f.right (right_turned up up-Beyond p f))
            inside.right_out
            (SameHistories-SameStage p.right q.right _ _ s.right (
              rw (← s.right.len_in)
                (rotate_m90-Agree p.right.len_in _ _ f.right.eighth same_right)))
            f.right_demod f.right_out s.right_demod inside.right_two inside.right_more)

    finish_block-Same : SameState (finish_block up p) (finish_block up q)
    unfolding finish_block pre_output
    finish_block-Same =
        let (l, ld, lb) = left-Same in
        let (r, rd, rb) = right-Same in
        record {
          both = s.both;
          left = l;
          right = r;
          left_demod = ld;
          right_demod = rd;
          bl_len = s.bl_len;
          br_len = s.br_len;
          dc_filter = s.dc_filter;
          handed = (
            interleaved-Agree p.bl_len q.bl_len p.br_len _ _ _ _ p.result q.result s.bl_len
                inside.outputs lb rb,
            s.handed,
          );
        }

  demod_round-Same :
      (p q : Pipeline)
      → Fits p
      → Sources p
      → SameState p q
      → Agree p.both.len_in p.both.buf q.both.buf
      → SameState (demod_round up p) (demod_round up q)
  unfolding demod_round
  demod_round-Same p q f inside s same =
      let kept = take_block-Kept up up-Beyond p f in
      let (taken, left, right) = take_block-Same p q f inside s same in
      finish_block-Same (take_block up p) (take_block up q) (Fits-Kept p _ f kept)
        (Sources-Kept p _ inside kept) taken (rw kept.left.len_in left) (rw kept.right.len_in right)

  -- Two signal paths that carry the same, whatever is in their buffers, and two sequences of blocks
  -- with the same bytes below the length of the first stage: after all blocks they carry the same,
  -- and they have handed on the same samples.
  pub feed-Same :
      (n : ℕ) (blocks blocks' : List (Array ℕ)) (p q : Pipeline)
      → p.both.len_in ≡ n
      → SameBlocks n blocks blocks'
      → Fits p
      → Sources p
      → SameState p q
      → SameState (feed up blocks p) (feed up blocks' q)
  unfolding feed
  feed-Same n [] [] p q len given f inside s = s
  feed-Same n [] (_ ∷ _) p q len given f inside s = absurd given
  feed-Same n (_ ∷ _) [] p q len given f inside s = absurd given
  feed-Same n (bytes ∷ later) (bytes' ∷ later') p q len given f inside s =
      let stored = rtlsdr_callback false bytes p.both.len_in p in
      let first = callback-Kept bytes p in
      let f' = Fits-Kept p stored f first in
      let inside' = Sources-Kept p stored inside first in
      let second = demod_round-Kept up up-Beyond stored f' in
      let (same, block) = callback-Same bytes bytes' p q (rw len given.0) s in
      feed-Same n later later' _ _ (second.both.len_in ∙ first.both.len_in ∙ len) given.1
        (Fits-Kept stored _ f' second) (Sources-Kept stored _ inside' second)
        (demod_round-Same stored _ f' inside' same (rw first.both.len_in block))
