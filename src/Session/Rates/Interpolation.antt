-- ===== src/Session/Rates/Interpolation.antt =====
-- The plan and `arbitrary_upsample` together: the planned lengths, and those it asks for.
use mathlib.Core.Path.{subst}
use native.Mathlib.Nat.{mul-div-le, le-div_iff_mul-le}
use rtl_ais_android.Base.{ℕ, ◌*◌, ◌/◌, ◌≤◌, ◌<◌, ◌≡◌, sym, arith, Array}
use rtl_ais_android.Base.Int.{ℤ, mul_mono}
use rtl_ais_android.Dsp.Upsample.{done, arbitrary_upsample}
use rtl_ais_android.Dsp.Upsample.Positions.{IsOutput, arbitrary_upsample-IsOutput}
use rtl_ais_android.Session.Rates.{Logarithm, Tuned, Plan, planned, plan}
use rtl_ais_android.Session.Rates.Laws.{plan-Lengths}

-- The samples of a channel, in values of the block.
samples_fit : (n a b : ℕ) → a * (b * (n / a / b / 2 * 2)) ≤ n
samples_fit n a b =
    let halves : n / a / b / 2 * 2 ≤ n / a / b = omega arith in
    let in_b = mul_mono b (n / a / b / 2 * 2) b (n / a / b) (omega arith) halves in
    let in_a =
      mul_mono a (b * (n / a / b / 2 * 2)) a (n / a) (omega arith)
        (omega (arith, in_b, mul-div-le (n / a) b)) in
    omega (arith, in_a, mul-div-le n a)

-- What the rate of a channel takes of the outputs.
lengths_fit :
    (n a b r out len : ℕ) → a * (b * (len * 2)) ≤ n → r ≤ out → len * (b * r * (2 * a)) ≤ n * out
lengths_fit n a b r out len fit le =
    let e : len * (b * r * (2 * a)) ≡ a * (b * (len * 2)) * r = omega arith in
    rw e (mul_mono (a * (b * (len * 2))) r n out fit le)

module _ (log : Logarithm) (o : Tuned) (p : Plan) (accepted : plan log o ≡ planned p)
    (exact : p.left.downsample * p.left.rate_out ≡ p.left.rate_in) where
  pub result_len-le : p.left_result_len ≤ p.bl_len
  result_len-le =
      let h = plan-Lengths log o p accepted in
      let a = p.both.downsample in
      let b = p.left.downsample in
      let r = p.left.rate_out in
      let n = p.left_result_len in
      let fit : a * (b * (n * 2)) ≤ 262144 =
        subst (λ len. a * (b * (len * 2)) ≤ 262144) (sym h.result_len) (samples_fit 262144 a b) in
      let le : n * (b * r * (2 * a)) ≤ 262144 * o.output_rate =
        lengths_fit 262144 a b r o.output_rate n fit h.few in
      let rate : b * r * a ≡ p.dongle_rate =
        subst (λ t. t * a ≡ p.dongle_rate) (sym exact) h.rate in
      let below : n * p.dongle_rate ≤ 131072 * o.output_rate =
        subst (λ t. n * t ≤ 131072 * o.output_rate) rate (omega (arith, le)) in
      rw h.bl_len ((le-div_iff_mul-le h.positive).1 below)

  -- In a run whose plan was accepted, where the rate of a channel is the planned quotient without a
  -- remainder and a block brings two demodulated samples or more: both channels have the same lengths,
  -- and `arbitrary_upsample` with them ends, with fuel beyond the number of outputs, reads only the
  -- samples there are, and makes every output the mixture at its place, and nothing beyond them.
  pub plan-interpolates :
      (mix : ℕ → ℕ → ℤ → ℤ → ℤ) (buf1 start : Array ℤ) (fuel : ℕ)
      → 2 ≤ p.left_result_len
      → p.bl_len < fuel
      → (p.right_result_len ≡ p.left_result_len)
        × (p.br_len ≡ p.bl_len)
        × ((out : Array ℤ) × (arbitrary_upsample mix buf1 p.left_result_len p.bl_len fuel start
              ≡ done out)
            × ((m : ℕ)
                → m < p.bl_len
                → IsOutput mix buf1 p.left_result_len p.bl_len start m (out m))
            × ((m : ℕ) → p.bl_len ≤ m → out m ≡ start m))
  plan-interpolates mix buf1 start fuel two enough =
      let h = plan-Lengths log o p accepted in
      (
        h.right_result_len,
        h.br_len,
        arbitrary_upsample-IsOutput mix buf1 p.left_result_len p.bl_len start fuel two result_len-le
            enough,
      )
