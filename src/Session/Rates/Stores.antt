-- ===== src/Session/Rates/Stores.antt =====
-- The plan and the buffers of the signal path together: where the stores go.
use native.Mathlib.Nat.{
  le-div_iff_mul-le, div-le_self, mul-div-le, one-le-pow, pow-le-pow_right, mul_assoc,
}
use rtl_ais_android.Base.{
  ℕ, zero, suc, ◌-◌, ◌*◌, ◌/◌, ◌%◌, ◌^◌, ◌≤◌, ◌≡◌, refl, sym, ap, ◌∙◌, arith, Array, List,
}
use rtl_ais_android.Base.Int.{ℤ, mul_mono}
use rtl_ais_android.Dsp.Pipeline.{Pipeline}
use rtl_ais_android.Dsp.Pipeline.Levels.{feed}
use rtl_ais_android.Dsp.Pipeline.Stores.{Beyond, Fits, Kept}
use rtl_ais_android.Dsp.Pipeline.Stores.Rounds.{feed-Kept}
use rtl_ais_android.Session.Rates.{Logarithm, Tuned, Plan, planned, plan_lengths, plan}
use rtl_ais_android.Session.Rates.Laws.{
  delta, j, k, checked, pow_reflect, rate_bounds, pow_passes, second_rate, far_apart,
}

-- The planned lengths, in the globals.
pub record IsLaidOut (p : Plan) (q : Pipeline) : Type 0 where
  pub both_in : q.both.len_in ≡ p.both.len_in
  pub both_out : q.both.len_out ≡ p.both.len_out
  pub both_passes : q.both.downsample_passes ≡ p.both.downsample_passes
  pub left_in : q.left.len_in ≡ p.left.len_in
  pub left_out : q.left.len_out ≡ p.left.len_out
  pub left_passes : q.left.downsample_passes ≡ p.left.downsample_passes
  pub right_in : q.right.len_in ≡ p.right.len_in
  pub right_out : q.right.len_out ≡ p.right.len_out
  pub right_passes : q.right.downsample_passes ≡ p.right.downsample_passes
  pub left_buf : q.left_demod.buf_len ≡ p.left_buf_len
  pub left_result : q.left_demod.result_len ≡ p.left_result_len
  pub right_buf : q.right_demod.buf_len ≡ p.right_buf_len
  pub right_result : q.right_demod.result_len ≡ p.right_result_len

-- What the planned lengths satisfy.
pub record Sizes (p : Plan) : Type 0 where
  pub both_long : 2 * 2 ^ p.both.downsample_passes ≤ p.both.len_in
  pub both_eighth : p.both.len_in % 8 ≡ 0
  pub both_rows : p.both.downsample_passes ≤ 10
  pub handed_on : p.both.len_out ≡ p.left.len_in
  pub same : p.right ≡ p.left
  pub left_long : 2 * 2 ^ p.left.downsample_passes ≤ p.left.len_in
  pub left_eighth : p.left.len_in % 8 ≡ 0
  pub left_rows : p.left.downsample_passes ≤ 10
  pub left_out : p.left.len_out ≡ p.left_buf_len
  pub two : 2 ≤ p.left_buf_len
  pub half : p.left_result_len ≡ p.left_buf_len / 2
  pub same_buf : p.right_buf_len ≡ p.left_buf_len
  pub same_result : p.right_result_len ≡ p.left_result_len
  pub both_out : p.both.len_out ≤ p.both.len_in
  pub left_shorter : p.left.len_out ≤ p.left.len_in
  pub two_results : 2 ≤ p.left_result_len
  pub same_outputs : p.br_len ≡ p.bl_len
  pub both_length : p.both.len_in ≡ 262144

eighths : (n : ℕ) → n ≤ 10 → 262144 / 2 ^ n % 8 ≡ 0
eighths zero le = refl
eighths (suc zero) le = refl
eighths (suc (suc zero)) le = refl
eighths (suc (suc (suc zero))) le = refl
eighths (suc (suc (suc (suc zero)))) le = refl
eighths (suc (suc (suc (suc (suc zero))))) le = refl
eighths (suc (suc (suc (suc (suc (suc zero)))))) le = refl
eighths (suc (suc (suc (suc (suc (suc (suc zero))))))) le = refl
eighths (suc (suc (suc (suc (suc (suc (suc (suc zero)))))))) le = refl
eighths (suc (suc (suc (suc (suc (suc (suc (suc (suc zero))))))))) le = refl
eighths (suc (suc (suc (suc (suc (suc (suc (suc (suc (suc zero)))))))))) le = refl
eighths (suc (suc (suc (suc (suc (suc (suc (suc (suc (suc (suc n))))))))))) le =
    absurd (omega arith)

module _ (log : Logarithm) (o : Tuned) (p : Plan) (accepted : plan log o ≡ planned p)
    (apart : 586 ≤ o.right_freq - o.left_freq) (sampled : 1172 ≤ o.sample_rate) where
  few : j log o ≤ 10
  few = far_apart log o p (checked log o p accepted) 10 586 (omega arith) apart

  abbrev a : ℕ
  a = 2 ^ j log o

  abbrev b : ℕ
  b = 2 ^ k log o

  -- Both stages together divide by less than 2048.
  pub product : 2 ^ k log o * 2 ^ j log o ≤ 2047
  product =
      let h = checked log o p accepted in
      let d = delta log o in
      let second = second_rate log o p h in
      let below : b * o.sample_rate ≤ d * 2 = omega (
        arith,
        mul_mono b o.sample_rate b (d * 2 / b) (omega arith) second.0,
        mul-div-le (d * 2) b,
      ) in
      let doubled : d * 2 * a ≤ 2400000 = omega (
        arith,
        rate_bounds log o p h,
        ap (λ (t : ℕ). d * t) (pow_passes log o p h),
        mul_assoc d 2 a,
      ) in
      let all = mul_mono (b * o.sample_rate) a (d * 2) a below (omega arith) in
      let least = mul_mono (b * a) 1172 (b * a) o.sample_rate (omega arith) sampled in
      omega (arith, all, least, doubled)

  few_left : k log o ≤ 10
  few_left =
      let b_le : b * 1 ≤ b * a =
        mul_mono b 1 b a (omega arith) (one-le-pow (j log o) 2 (omega arith)) in
      pow_reflect (k log o) 10 (omega (arith, b_le, product))

  a_le : a ≤ 1024
  a_le = pow-le-pow_right {n = 2} (omega arith) {i = j log o} {j = 10} few

  left_fits : 2 * b ≤ 262144 / a
  left_fits = (le-div_iff_mul-le (one-le-pow (j log o) 2 (omega arith))).1 (omega (arith, product))

  two_left : 2 ≤ 262144 / a / b
  two_left = (le-div_iff_mul-le (one-le-pow (k log o) 2 (omega arith))).1 (omega (arith, left_fits))

  four_left : 4 ≤ 262144 / a / b
  four_left =
      (le-div_iff_mul-le (one-le-pow (k log o) 2 (omega arith))).1
        ((le-div_iff_mul-le (one-le-pow (j log o) 2 (omega arith))).1 (omega (arith, product)))

  pub sizes : Sizes p
  unfolding plan_lengths
  sizes =
      let h = checked log o p accepted in
      rw h.lengths (record {
        both_long = omega (arith, a_le);
        both_eighth = refl;
        both_rows = few;
        handed_on = refl;
        same = refl;
        left_long = left_fits;
        left_eighth = eighths (j log o) few;
        left_rows = few_left;
        left_out = refl;
        two = two_left;
        half = refl;
        same_buf = refl;
        same_result = refl;
        both_out = div-le_self 262144 a;
        left_shorter = div-le_self (262144 / a) b;
        two_results = omega (arith, four_left);
        same_outputs = refl;
        both_length = refl;
      })

  pub laid_out-Fits : (q : Pipeline) → IsLaidOut p q → Fits q
  laid_out-Fits q at =
      let s = sizes in
      let right_in = at.right_in ∙ ap (λ t. t.len_in) s.same in
      let right_out = at.right_out ∙ ap (λ t. t.len_out) s.same in
      let right_passes = at.right_passes ∙ ap (λ t. t.downsample_passes) s.same in
      let right_buf = at.right_buf ∙ s.same_buf in
      record {
        both = record {
          long = rw (at.both_in, at.both_passes) s.both_long;
          eighth = rw at.both_in s.both_eighth;
        };
        left = record {
          long = rw (at.left_in, at.left_passes) s.left_long;
          eighth = rw at.left_in s.left_eighth;
        };
        right = record {
          long = rw (right_in, right_passes) s.left_long;
          eighth = rw right_in s.left_eighth;
        };
        to_left = at.both_out ∙ s.handed_on ∙ sym at.left_in;
        to_right = at.both_out ∙ s.handed_on ∙ sym right_in;
        left_demod = record {
          some_values = rw at.left_buf s.two;
          half = rw (at.left_buf, at.left_result) s.half;
        };
        right_demod = record {
          some_values = rw right_buf s.two;
          half = at.right_result ∙ s.same_result ∙ s.half ∙ ap (λ n. n / 2) (sym right_buf);
        };
        left_out = at.left_out ∙ s.left_out ∙ sym at.left_buf;
        right_out = right_out ∙ s.left_out ∙ sym right_buf;
      }

  -- In a run whose plan was accepted, with channels 586 Hz or more apart and a sample rate of 1172 Hz or
  -- more, where the buffers are laid out by the plan and the interpolation stores only its outputs:
  -- whatever blocks arrive, the callback and the rounds of the thread change no length and, in no buffer,
  -- a value beyond the length that it was allocated with; and the passes of each stage have a row of
  -- their own among the ten rows of its histories.
  pub laid_out-stores :
      (up : Array ℤ → Array ℤ → ℕ → ℕ → Array ℤ)
      → ((s t : Array ℤ) (n m : ℕ) → Beyond m t (up s t n m))
      → (q : Pipeline) → IsLaidOut p q
      → (blocks : List (Array ℕ))
      → Kept q (feed up blocks q)
        × (q.both.downsample_passes ≤ 10)
        × (q.left.downsample_passes ≤ 10)
        × (q.right.downsample_passes ≤ 10)
  laid_out-stores up only q at blocks =
      let s = sizes in
      (
        feed-Kept up only blocks q (laid_out-Fits q at),
        rw at.both_passes s.both_rows,
        rw at.left_passes s.left_rows,
        rw (at.right_passes, ap (λ t. t.downsample_passes) s.same) s.left_rows,
      )
