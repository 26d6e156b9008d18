-- ===== src/Session/Rates/Reads.antt =====
-- The plan and the buffers of the signal path together: which of their values matter.
use Prim.{tt}
use rtl_ais_android.Base.{ℕ, ◌-◌, ◌*◌, ◌≤◌, ◌≡◌, refl, ap, ◌∙◌, arith, Array, List, [], ◌∷◌}
use rtl_ais_android.Base.Int.{ℤ}
use rtl_ais_android.Dsp.Downsample.{downsample_init}
use rtl_ais_android.Dsp.Pipeline.{Pipeline}
use rtl_ais_android.Dsp.Pipeline.Init.{Fresh, init_buffers}
use rtl_ais_android.Dsp.Pipeline.Levels.{feed}
use rtl_ais_android.Dsp.Pipeline.Reads.Rounds.{feed-Same}
use rtl_ais_android.Dsp.Pipeline.Reads.State.{SameHanded, SameBlocks, SameState, Sources}
use rtl_ais_android.Dsp.Upsample.{upsampled}
use rtl_ais_android.Dsp.Upsample.Stores.{upsampled_beyond}
use rtl_ais_android.Dsp.Upsample.Reads.{upsampled-Agree}
use rtl_ais_android.Session.Rates.{Logarithm, Tuned, Plan, planned, plan}
use rtl_ais_android.Session.Rates.Interpolation.{result_len-le}
use rtl_ais_android.Session.Rates.Stores.{sizes, laid_out-Fits}
use rtl_ais_android.Session.Rates.Setup.{assign, begun-IsLaidOut}

handed-SameHanded : (n : ℕ) (xs : List (Array ℤ)) → SameHanded n xs xs
handed-SameHanded n [] = tt
handed-SameHanded n (x ∷ xs) = (λ i lt. refl, handed-SameHanded n xs)

-- Buffers from two calls of `malloc`.
begun-SameState :
    (p : Plan) (f f' : Fresh) (q : Pipeline)
    → SameState (init_buffers f (assign p q)) (init_buffers f' (assign p q))
unfolding init_buffers downsample_init
begun-SameState p f f' q = record {
  both = record {
    len_in = refl;
    len_out = refl;
    passes = refl;
    lp_i = refl;
    lp_q = refl;
    droop_i = refl;
    droop_q = refl;
  };
  left = record {
    len_in = refl;
    len_out = refl;
    passes = refl;
    lp_i = refl;
    lp_q = refl;
    droop_i = refl;
    droop_q = refl;
  };
  right = record {
    len_in = refl;
    len_out = refl;
    passes = refl;
    lp_i = refl;
    lp_q = refl;
    droop_i = refl;
    droop_q = refl;
  };
  left_demod = record {
    buf_len = refl;
    result_len = refl;
    pre_r = refl;
    pre_j = refl;
    dc_avg = refl;
  };
  right_demod = record {
    buf_len = refl;
    result_len = refl;
    pre_r = refl;
    pre_j = refl;
    dc_avg = refl;
  };
  bl_len = refl;
  br_len = refl;
  dc_filter = refl;
  handed = handed-SameHanded (2 * p.bl_len) q.handed;
}

module _ (log : Logarithm) (o : Tuned) (p : Plan) (accepted : plan log o ≡ planned p)
    (apart : 586 ≤ o.right_freq - o.left_freq) (sampled : 1172 ≤ o.sample_rate)
    (exact : p.left.downsample * p.left.rate_out ≡ p.left.rate_in) where
  begun-Sources : (f : Fresh) (q : Pipeline) → Sources (init_buffers f (assign p q))
  unfolding init_buffers
  begun-Sources f q =
      let s = sizes log o p accepted apart sampled in
      let at = begun-IsLaidOut log o p accepted f q in
      let right_out = at.right_out ∙ ap (λ t. t.len_out) s.same in
      let right_in = at.right_in ∙ ap (λ t. t.len_in) s.same in
      let more = result_len-le log o p accepted exact in
      record {
        both_out = rw (at.both_out, at.both_in) s.both_out;
        left_out = rw (at.left_out, at.left_in) s.left_shorter;
        right_out = rw (right_out, right_in) s.left_shorter;
        left_two = s.two_results;
        right_two = rw s.same_result s.two_results;
        left_more = more;
        right_more = rw (s.same_result, s.same_outputs) more;
        outputs = rw s.same_outputs (omega arith);
      }

  -- In a run whose plan was accepted, with channels 586 Hz or more apart, a sample rate of 1172 Hz or
  -- more, and a rate of a channel that is the planned quotient without a remainder, whatever mixture of
  -- two samples `arbitrary_upsample` makes: two runs that start from the same globals, on blocks with the
  -- same bytes up to the planned length, carry the same after all blocks and have handed on the same
  -- samples, whatever `malloc` left in their buffers and whatever stands beyond them.
  pub plan-reads :
      (mix : ℕ → ℕ → ℤ → ℤ → ℤ) (f f' : Fresh) (q : Pipeline) (blocks blocks' : List (Array ℕ))
      → SameBlocks 262144 blocks blocks'
      → SameState
          (feed (upsampled mix) blocks (init_buffers f (assign p q)))
          (feed (upsampled mix) blocks' (init_buffers f' (assign p q)))
  plan-reads mix f f' q blocks blocks' same =
      let at = begun-IsLaidOut log o p accepted f q in
      feed-Same (upsampled mix)
        (λ s s' t t' n m two le a. upsampled-Agree mix n m s s' a two le t t')
        (λ s t n m x ge. upsampled_beyond mix s n m t x ge) 262144 blocks blocks' _ _
        (at.both_in ∙ (sizes log o p accepted apart sampled).both_length) same
        (laid_out-Fits log o p accepted apart sampled _ at) (begun-Sources f q)
        (begun-SameState p f f' q)
