-- ===== src/Session/Rates/Setup.antt =====
-- From the plan to the signal path: the globals as `rtl_ais_main` assigns them, the buffers that it
-- allocates, and what holds of every block from there on.
use mathlib.Core.Path.{subst}
use rtl_ais_android.Base.{
  ℕ, ◌+◌, ◌-◌, ◌*◌, ◌/◌, ◌%◌, ◌^◌, ◌≤◌, ◌<◌, ◌≡◌, refl, sym, ◌∙◌, arith, Array, List, ◌∷◌, ◌==◌,
  Bool-cases, inl, inr,
}
use rtl_ais_android.Base.Int.{ℤ, pos, Within}
use rtl_ais_android.Dsp.FifthOrder.Bounds.{BlockWithin}
use rtl_ais_android.Dsp.Downsample.{DownsampleState, downsample_init}
use rtl_ais_android.Dsp.Pipeline.{Pipeline}
use rtl_ais_android.Dsp.Pipeline.Init.{Fresh, init_buffers}
use rtl_ais_android.Dsp.Pipeline.Levels.{AreBytes, feed}
use rtl_ais_android.Dsp.Pipeline.Reads.{SameHistories}
use rtl_ais_android.Dsp.Pipeline.Reads.First.{feed-both_same}
use rtl_ais_android.Dsp.Pipeline.Stores.{Kept}
use rtl_ais_android.Dsp.Upsample.{upsampled}
use rtl_ais_android.Dsp.Upsample.Stores.{upsampled_beyond}
use rtl_ais_android.Session.Rates.{Logarithm, Tuned, Stage, Plan, planned, plan_lengths, plan}
use rtl_ais_android.Session.Rates.Laws.{checked}
use rtl_ais_android.Session.Rates.Levels.{no_history, few, power, planned-levels}
use rtl_ais_android.Session.Rates.Stores.{IsLaidOut, laid_out-stores}

abbrev pub assign_stage : Stage → DownsampleState → DownsampleState
assign_stage s d = record d {
  rate_in = s.rate_in;
  rate_out = s.rate_out;
  downsample = s.downsample;
  downsample_passes = s.downsample_passes;
  len_in = s.len_in;
  len_out = s.len_out;
}

abbrev pub assign : Plan → Pipeline → Pipeline
assign p q = record q {
  both = assign_stage p.both q.both;
  left = assign_stage p.left q.left;
  right = assign_stage p.right q.right;
  left_demod = record q.left_demod { buf_len = p.left_buf_len; result_len = p.left_result_len };
  right_demod = record q.right_demod { buf_len = p.right_buf_len; result_len = p.right_result_len };
  bl_len = p.bl_len;
  br_len = p.br_len;
}

any_place :
    (buf : Array ℤ)
    → BlockWithin 20480 0 buf × BlockWithin 20480 1 buf
    → (x : ℕ) → Within 20480 (buf x)
any_place buf (i, q) x = elim (Bool-cases (x % 2 == 0)) [
  | inl even ↦
      let e : 0 + 2 * (x / 2) ≡ x = ground (arith, even) in
      subst (λ n. Within 20480 (buf n)) e (i (x / 2))
  | inr odd ↦
      let e : 1 + 2 * (x / 2) ≡ x = ground (arith, odd) in
      subst (λ n. Within 20480 (buf n)) e (q (x / 2))
]

-- The lengths that `downsample_init` computes again are those of the plan.
record Recomputed (p : Plan) : Type 0 where
  pub both : p.both.len_in / p.both.downsample ≡ p.both.len_out
  pub left : p.left.len_in / p.left.downsample ≡ p.left.len_out
  pub right : p.right.len_in / p.right.downsample ≡ p.right.len_out

module _ (log : Logarithm) (o : Tuned) (p : Plan) (accepted : plan log o ≡ planned p) (f : Fresh)
    (q : Pipeline) where
  recomputed : Recomputed p
  unfolding plan_lengths
  recomputed =
      let h = checked log o p accepted in
      subst (λ r. Recomputed r) (sym h.lengths) (record { both = refl; left = refl; right = refl })

  -- The signal path before its first block.
  abbrev pub begun : Pipeline
  begun = init_buffers f (assign p q)

  pub begun-IsLaidOut : IsLaidOut p begun
  unfolding init_buffers downsample_init
  begun-IsLaidOut = record {
    both_in = refl;
    both_out = recomputed.both;
    both_passes = refl;
    left_in = refl;
    left_out = recomputed.left;
    left_passes = refl;
    right_in = refl;
    right_out = recomputed.right;
    right_passes = refl;
    left_buf = refl;
    left_result = refl;
    right_buf = refl;
    right_result = refl;
  }

  -- In a run whose plan was accepted, with channels 586 Hz or more apart and a sample rate of 1172 Hz or
  -- more, whatever mixture of two samples `arbitrary_upsample` makes: once the buffers are allocated
  -- as planned, whatever blocks of the planned length arrive, the callback and the rounds of the thread
  -- change no length and, in no buffer, a value beyond the length that it was allocated with; and no
  -- stage has more passes than the ten rows of its histories.
  pub plan-stores :
      586 ≤ o.right_freq - o.left_freq
      → 1172 ≤ o.sample_rate
      → (mix : ℕ → ℕ → ℤ → ℤ → ℤ) (blocks : List (Array ℕ))
      → Kept begun (feed (upsampled mix) blocks begun)
        × (begun.both.downsample_passes ≤ 10)
        × (begun.left.downsample_passes ≤ 10)
        × (begun.right.downsample_passes ≤ 10)
  plan-stores apart sampled mix blocks =
      laid_out-stores log o p accepted apart sampled (upsampled mix)
        (λ s t n m x ge. upsampled_beyond mix s n m t x ge) begun begun-IsLaidOut blocks

  -- Another buffer for the first stage.
  module _ (a : Array ℤ) where
    abbrev other : Pipeline
    other = init_buffers (record f { both = a }) (assign p q)

    clean-both : other.both ≡ downsample_init a (assign_stage p.both q.both)
    unfolding init_buffers
    clean-both = refl

    clean-SameHistories : SameHistories begun.both other.both
    unfolding init_buffers downsample_init
    clean-SameHistories = record {
      len_in = refl;
      len_out = refl;
      passes = refl;
      lp_i = refl;
      lp_q = refl;
      droop_i = refl;
      droop_q = refl;
    }

  first_len : 18751 ≤ o.right_freq - o.left_freq → begun.both.len_in ≡ 262144
  first_len apart = begun-IsLaidOut.both_in ∙ (few log o p accepted apart).1

  first_long :
      18751 ≤ o.right_freq - o.left_freq → 2 * 2 ^ begun.both.downsample_passes ≤ begun.both.len_in
  first_long apart =
      rw (first_len apart, begun-IsLaidOut.both_passes)
        (omega (arith, power log o p accepted apart))

  -- In a run whose plan was accepted and whose channels are more than 18750 Hz apart, from droop
  -- histories of zeros and buffers allocated as planned, whatever `malloc` left in them: after one block
  -- of bytes or more, every value of the block that the first stage leaves is within 20480, which an
  -- int16_t holds.
  pub plan-levels :
      18751 ≤ o.right_freq - o.left_freq
      → q.both.droop_i_hist ≡ no_history
      → q.both.droop_q_hist ≡ no_history
      → (up : Array ℤ → Array ℤ → ℕ → ℕ → Array ℤ) (bytes : Array ℕ) (later : List (Array ℕ))
      → AreBytes (bytes ∷ later)
      → (x : ℕ) → x < 262144
      → Within 20480 ((feed up (bytes ∷ later) begun).both.buf x)
  plan-levels apart no_i no_q up bytes later eight x lt =
      let zeros : Array ℤ = λ i. pos 0 in
      let clean = init_buffers (record f { both = zeros }) (assign p q) in
      let level =
        planned-levels log o p accepted apart zeros (assign_stage p.both q.both)
          (record { len_in = refl; same_passes = refl; no_i = no_i; no_q = no_q })
          (λ i ge. (omega arith, omega arith)) up clean (clean-both zeros) bytes later eight in
      let long = first_long apart in
      let (len, same) =
        feed-both_same up bytes later begun clean long (clean-SameHistories zeros) in
      rw (same.buf x (rw (len, first_len apart) lt))
        (any_place (feed up (bytes ∷ later) clean).both.buf level x)
