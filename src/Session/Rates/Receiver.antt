-- ===== src/Session/Rates/Receiver.antt =====
-- The plan and the signal path together: every block of a run as a pair of signals.
use native.Mathlib.Nat.{one-le-pow}
use rtl_ais_android.Base.{
  ℕ, suc, ◌+◌, ◌-◌, ◌*◌, ◌/◌, ◌^◌, ◌≤◌, ◌<◌, ◌≡◌, refl, ap, ◌∙◌, arith, Array, List, [], ◌∷◌, Agree,
  false,
}
use rtl_ais_android.Base.Int.{ℤ}
use rtl_ais_android.Dsp.Downsample.Decimation.Passes.{pow_split, length_at}
use rtl_ais_android.Dsp.Pipeline.{Pipeline, rtlsdr_callback, demod_round}
use rtl_ais_android.Dsp.Pipeline.Init.{Fresh, init_buffers}
use rtl_ais_android.Dsp.Pipeline.Levels.{feed}
use rtl_ais_android.Dsp.Pipeline.Stores.{Beyond, Fits, Kept, StageKept, Kept-trans, Fits-Kept}
use rtl_ais_android.Dsp.Pipeline.Stores.Rounds.{callback-Kept, demod_round-Kept}
use rtl_ais_android.Dsp.Pipeline.Receiver.{IsReceived}
use rtl_ais_android.Dsp.Pipeline.Receiver.Block.{Divides, AreWhole, block-IsReceived}
use rtl_ais_android.Dsp.Downsample.{DownsampleState}
use rtl_ais_android.Dsp.Upsample.{upsampled}
use rtl_ais_android.Dsp.Upsample.Stores.{upsampled_beyond}
use rtl_ais_android.Dsp.Upsample.Reads.{upsampled-Agree}
use rtl_ais_android.Session.Rates.{Logarithm, Tuned, Plan, planned, plan_lengths, plan}
use rtl_ais_android.Session.Rates.Laws.{j, k, checked, pow_reflect}
use rtl_ais_android.Session.Rates.Interpolation.{result_len-le}
use rtl_ais_android.Session.Rates.Stores.{product, sizes, laid_out-Fits}
use rtl_ais_android.Session.Rates.Setup.{assign, begun-IsLaidOut}

-- Each block, the oldest first, is received from the state that the one before has left.
abbrev pub AreReceived :
    (Array ℤ → Array ℤ → ℕ → ℕ → Array ℤ) → ℕ → ℕ → List (Array ℕ) → Pipeline → Pipeline → Type 0
AreReceived up c n [] p q = p ≡ q
AreReceived up c n (bytes ∷ later) p q =
    (next : Pipeline) × IsReceived up c n bytes p next × AreReceived up c n later next q

Divides-Kept : (c : ℕ) (d e : DownsampleState) → Divides c d → StageKept d e → Divides c e
Divides-Kept c d e h k = record {
  samples = rw (k.len_in, k.passes) h.samples;
  outputs = rw k.len_out h.outputs;
}

AreWhole-Kept : (c n : ℕ) (p q : Pipeline) → AreWhole c n p → Kept p q → AreWhole c n q
AreWhole-Kept c n p q w k = record {
  some_data = w.some_data;
  both = Divides-Kept c p.both q.both w.both k.both;
  left = Divides-Kept (suc n) p.left q.left w.left k.left;
  right = Divides-Kept (suc n) p.right q.right w.right k.right;
  two = w.two;
  more = rw k.bl_len w.more;
  outputs = rw (k.bl_len, k.br_len) w.outputs;
}

module _ (up : Array ℤ → Array ℤ → ℕ → ℕ → Array ℤ)
    (up-Agree : (s s' t t' : Array ℤ) (n m : ℕ)
      → 2 ≤ n
      → n ≤ m
      → Agree n s s'
      → Agree m (up s t n m) (up s' t' n m))
    (up-Beyond : (s t : Array ℤ) (n m : ℕ) → Beyond m t (up s t n m)) (c n : ℕ) where
  feed-AreReceived :
      (blocks : List (Array ℕ)) (p : Pipeline)
      → Fits p
      → AreWhole c n p
      → AreReceived up c n blocks p (feed up blocks p)
  unfolding feed
  feed-AreReceived [] p f w = refl
  feed-AreReceived (bytes ∷ later) p f w =
      let stored = rtlsdr_callback false bytes p.both.len_in p in
      let first = callback-Kept bytes p in
      let one =
        Kept-trans p stored (demod_round up stored) first
          (demod_round-Kept up up-Beyond stored (Fits-Kept p stored f first)) in
      (
        demod_round up stored,
        block-IsReceived up up-Agree up-Beyond c n bytes p f w,
        feed-AreReceived later (demod_round up stored) (Fits-Kept p _ f one)
            (AreWhole-Kept c n p _ w one),
      )

-- What a block of 2 ^ 18 values is divided to.
module _ (a b : ℕ) (few : a + b ≤ 10) where
  first_half : 262144 / 2 ^ a ≡ 2 * 2 ^ (17 - a)
  first_half = length_at 1 17 a (omega (arith, few)) ∙ omega arith

  first_whole : 262144 ≡ 2 * (2 ^ (17 - a) * 2 ^ a)
  first_whole = ap (λ t. 2 * t) (pow_split 17 a (omega (arith, few)))

  second_whole : 262144 / 2 ^ a ≡ 2 * (2 ^ (17 - a - b) * 2 ^ b)
  second_whole = first_half ∙ ap (λ t. 2 * t) (pow_split (17 - a) b (omega (arith, few)))

  second_half : 262144 / 2 ^ a / 2 ^ b ≡ 2 * 2 ^ (17 - a - b)
  second_half =
      let e : 2 * 2 ^ (17 - a) ≡ 2 * (1 * 2 ^ (17 - a)) = omega arith in
      ap (λ t. t / 2 ^ b) (first_half ∙ e)
      ∙ length_at 1 (17 - a) b (omega (arith, few))
      ∙ omega arith

-- The planned lengths, in samples.
record Counts (p : Plan) : Type 0 where
  pub both : p.both.len_in ≡ 2 * (p.both.len_out / 2 * 2 ^ p.both.downsample_passes)
  pub both_out : p.both.len_out ≡ 2 * (p.both.len_out / 2)
  pub some_data : 0 < p.both.len_out / 2
  pub left : p.left.len_in ≡ 2 * (p.left_result_len * 2 ^ p.left.downsample_passes)
  pub left_out : p.left.len_out ≡ 2 * p.left_result_len

module _ (log : Logarithm) (o : Tuned) (p : Plan) (accepted : plan log o ≡ planned p)
    (apart : 586 ≤ o.right_freq - o.left_freq) (sampled : 1172 ≤ o.sample_rate)
    (exact : p.left.downsample * p.left.rate_out ≡ p.left.rate_in) where
  few : j log o + k log o ≤ 10
  few =
      let split = pow_split (j log o + k log o) (j log o) (omega arith) in
      let rest : j log o + k log o - j log o ≡ k log o = omega arith in
      pow_reflect (j log o + k log o) 10
        (rw (split, rest) (omega (arith, product log o p accepted apart sampled)))

  counts : Counts p
  unfolding plan_lengths
  counts =
      let h = checked log o p accepted in
      let half : 262144 / 2 ^ j log o / 2 ≡ 2 ^ (17 - j log o) =
        omega (arith, first_half (j log o) (k log o) few) in
      let quarter : 262144 / 2 ^ j log o / 2 ^ k log o / 2 ≡ 2 ^ (17 - j log o - k log o) =
        omega (arith, second_half (j log o) (k log o) few) in
      rw h.lengths (record {
        both = rw half (first_whole (j log o) (k log o) few);
        both_out = rw half (first_half (j log o) (k log o) few);
        some_data = rw half (one-le-pow (17 - j log o) 2 (omega arith));
        left = rw quarter (second_whole (j log o) (k log o) few);
        left_out = rw quarter (second_half (j log o) (k log o) few);
      })

  begun-AreWhole :
      (f : Fresh) (q : Pipeline)
      → AreWhole (p.both.len_out / 2) (p.left_result_len - 1) (init_buffers f (assign p q))
  unfolding init_buffers
  begun-AreWhole f q =
      let s = sizes log o p accepted apart sampled in
      let h = counts in
      let at = begun-IsLaidOut log o p accepted f q in
      let back : suc (p.left_result_len - 1) ≡ p.left_result_len = omega (arith, s.two_results) in
      record {
        some_data = h.some_data;
        both = record { samples = h.both; outputs = at.both_out ∙ h.both_out };
        left = record { samples = rw back h.left; outputs = rw back (at.left_out ∙ h.left_out) };
        right = record {
          samples = rw (back, s.same) h.left;
          outputs = rw back (at.right_out ∙ ap (λ t. t.len_out) s.same ∙ h.left_out);
        };
        two = omega (arith, s.two_results);
        more = rw back (result_len-le log o p accepted exact);
        outputs = rw s.same_outputs (omega arith);
      }

  -- In a run whose plan was accepted, with channels 586 Hz or more apart, a sample rate of 1172 Hz or
  -- more, and a rate of a channel that is the planned quotient without a remainder, whatever mixture of
  -- two samples `arbitrary_upsample` makes and whatever `malloc` left in the buffers: of every block,
  -- the first stage leaves the decimation of the pair of signals in it; each channel decimates it
  -- again, turned its way, leaves the changes of angle, centred if that is asked for, and interpolates
  -- them; the outputs of the two are handed on interleaved; the histories, the last samples and the
  -- estimates that are left are those that the next block goes on from; and the lengths, the numbers of
  -- passes and the setting of the filter stay as they were.
  pub plan-receives :
      (mix : ℕ → ℕ → ℤ → ℤ → ℤ) (f : Fresh) (q : Pipeline) (blocks : List (Array ℕ))
      → let begun = init_buffers f (assign p q) in
        AreReceived
          (upsampled mix)
          (p.both.len_out / 2)
          (p.left_result_len - 1)
          blocks
          begun
          (feed (upsampled mix) blocks begun)
  plan-receives mix f q blocks =
      let at = begun-IsLaidOut log o p accepted f q in
      feed-AreReceived (upsampled mix)
        (λ s s' t t' n m two le a. upsampled-Agree mix n m s s' a two le t t')
        (λ s t n m x ge. upsampled_beyond mix s n m t x ge) (p.both.len_out / 2)
        (p.left_result_len - 1) blocks _ (laid_out-Fits log o p accepted apart sampled _ at)
        (begun-AreWhole f q)
