-- ===== src/Session/Rates/Threads.antt =====
-- The plan, the signal path and the two threads together.
use mathlib.Core.Path.{subst}
use rtl_ais_android.Base.{ℕ, ◌-◌, ◌*◌, ◌/◌, ◌≤◌, ◌≡◌, sym, ap, ◌∙◌, Bool, Array, List}
use rtl_ais_android.Base.Int.{ℤ}
use rtl_ais_android.Dsp.Pipeline.{Pipeline}
use rtl_ais_android.Dsp.Pipeline.Init.{Fresh, init_buffers}
use rtl_ais_android.Dsp.Pipeline.Levels.{feed}
use rtl_ais_android.Dsp.Pipeline.Threads.{reading, System, Reach, start}
use rtl_ais_android.Dsp.Pipeline.Threads.Sequential.{replay, settled, partial, Reach-replay}
use rtl_ais_android.Dsp.Pipeline.Threads.Turns.{in_turn, replay-in_turn}
use rtl_ais_android.Dsp.Upsample.{upsampled}
use rtl_ais_android.Dsp.Upsample.Stores.{upsampled_beyond}
use rtl_ais_android.Session.Rates.{Logarithm, Tuned, Plan, planned, plan}
use rtl_ais_android.Session.Rates.Stores.{sizes, laid_out-Fits}
use rtl_ais_android.Session.Rates.Setup.{assign, begun-IsLaidOut}
use rtl_ais_android.Session.Rates.Receiver.{AreReceived, plan-receives}

module _ (log : Logarithm) (o : Tuned) (p : Plan) (accepted : plan log o ≡ planned p)
    (apart : 586 ≤ o.right_freq - o.left_freq) (sampled : 1172 ≤ o.sample_rate)
    (exact : p.left.downsample * p.left.rate_out ≡ p.left.rate_in) where
  -- In a run whose plan was accepted, with channels 586 Hz or more apart, a sample rate of 1172 Hz or
  -- more, and a rate of a channel that is the planned quotient without a remainder, whatever mixture of
  -- two samples `arbitrary_upsample` makes and whatever `malloc` left in the buffers: in any state
  -- between two callbacks that the two threads can reach, with spurious wakes or without, in which
  -- blocks of the planned length were stored and taken in turn, the signal path, with the round under way
  -- brought to its end, is what these blocks leave, each received as a pair of signals from the state
  -- that the one before has left.
  pub Reach-receives :
      (mix : ℕ → ℕ → ℤ → ℤ → ℤ) (f : Fresh) (q : Pipeline) (blocks : List (Array ℕ)) (b : Bool)
      (s : System)
      → let begun = init_buffers f (assign p q) in
        Reach (upsampled mix) b (start begun) s
        → s.usb ≡ reading
        → s.log ≡ in_turn 262144 blocks
        → AreReceived
            (upsampled mix)
            (p.both.len_out / 2)
            (p.left_result_len - 1)
            blocks
            begun
            (settled (upsampled mix) s.demod s.pipe)
  Reach-receives mix f q blocks b s reached between turns =
      let up = upsampled mix in
      let begun = init_buffers f (assign p q) in
      let at = begun-IsLaidOut log o p accepted f q in
      let one_thread : replay up (in_turn 262144 blocks) begun ≡ feed up blocks begun =
        replay-in_turn up (λ t u n m x ge. upsampled_beyond mix t n m u x ge) 262144 blocks begun
          (at.both_in ∙ (sizes log o p accepted apart sampled).both_length)
          (laid_out-Fits log o p accepted apart sampled begun at) in
      let same : settled up s.demod s.pipe ≡ feed up blocks begun =
        (Reach-replay up reached).1
        ∙ ap (λ u. partial up u (replay up s.log begun)) between
        ∙ ap (λ l. replay up l begun) turns
        ∙ one_thread in
      subst (λ r. AreReceived up (p.both.len_out / 2) (p.left_result_len - 1) blocks begun r)
        (sym same) (plan-receives log o p accepted apart sampled exact mix f q blocks)
