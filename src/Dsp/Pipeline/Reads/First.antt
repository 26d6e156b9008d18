-- ===== src/Dsp/Pipeline/Reads/First.antt =====
-- What the first stage reads, whatever becomes of its samples.
use rtl_ais_android.Base.{ℕ, ◌*◌, ◌^◌, ◌≤◌, ◌≡◌, refl, ◌∙◌, Array, List, [], ◌∷◌, false}
use rtl_ais_android.Base.Int.{ℤ}
use rtl_ais_android.Base.Loop.{for_loop}
use rtl_ais_android.Dsp.Downsample.{DownsampleState, downsample}
use rtl_ais_android.Dsp.Downsample.Keeps.{downsample-Keeps}
use rtl_ais_android.Dsp.Downsample.Reads.{SameStage, downsample-SameStage}
use rtl_ais_android.Dsp.Pipeline.{Pipeline, store_round, store_block, rtlsdr_callback, demod_round}
use rtl_ais_android.Dsp.Pipeline.Levels.{feed, demod_round-both}
use rtl_ais_android.Dsp.Pipeline.Reads.{
  SameHistories, SameStage-SameHistories, SameHistories-SameStage, stored-Agree,
}

abbrev IsLong : DownsampleState → Type 0
IsLong d = 2 * 2 ^ d.downsample_passes ≤ d.len_in

module _ (up : Array ℤ → Array ℤ → ℕ → ℕ → Array ℤ) where
  -- The first stage with a block stored in it.
  abbrev stored : Array ℕ → Pipeline → DownsampleState
  stored bytes p = record p.both { buf = for_loop 0 1 p.both.len_in (store_round bytes) p.both.buf }

  abbrev after : Array ℕ → Pipeline → Pipeline
  after bytes p = demod_round up (rtlsdr_callback false bytes p.both.len_in p)

  after-both : (bytes : Array ℕ) (p : Pipeline) → (after bytes p).both ≡ downsample (stored bytes p)
  unfolding rtlsdr_callback store_block
  after-both bytes p = demod_round-both up (store_block bytes p.both.len_in p)

  module _ (bytes : Array ℕ) (p q : Pipeline) (long : IsLong p.both)
      (s : SameHistories p.both q.both) where
    block-SameStage : SameStage (after bytes p).both (after bytes q).both
    block-SameStage =
        rw (after-both bytes p, after-both bytes q)
          (downsample-SameStage (stored bytes p) (stored bytes q) long (
            SameHistories-SameStage p.both q.both _ _ s
              (stored-Agree p.both.len_in q.both.len_in bytes bytes _ _ s.len_in (λ x lt. refl))))

  after-len_in :
      (bytes : Array ℕ) (p : Pipeline) → IsLong p.both → (after bytes p).both.len_in ≡ p.both.len_in
  after-len_in bytes p long =
      rw (after-both bytes p) (downsample-Keeps (stored bytes p) long).len_in

  after-IsLong : (bytes : Array ℕ) (p : Pipeline) → IsLong p.both → IsLong (after bytes p).both
  after-IsLong bytes p long =
      let kept = downsample-Keeps (stored bytes p) long in
      rw (after-both bytes p, kept.len_in, kept.passes) long

  -- After one block or more, each at least two values for every pass, the first stage holds the same
  -- samples whatever was in its buffer before and whatever the other stages hold.
  pub feed-both_same :
      (bytes : Array ℕ) (later : List (Array ℕ)) (p q : Pipeline)
      → IsLong p.both
      → SameHistories p.both q.both
      → ((feed up (bytes ∷ later) p).both.len_in ≡ p.both.len_in)
        × SameStage (feed up (bytes ∷ later) p).both (feed up (bytes ∷ later) q).both
  unfolding feed
  feed-both_same bytes [] p q long s = (after-len_in bytes p long, block-SameStage bytes p q long s)
  feed-both_same bytes (next ∷ later) p q long s =
      let one = SameStage-SameHistories _ _ (block-SameStage bytes p q long s) in
      let (len, same) =
        feed-both_same next later (after bytes p) (after bytes q) (after-IsLong bytes p long) one in
      (len ∙ after-len_in bytes p long, same)
