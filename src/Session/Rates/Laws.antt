-- ===== src/Session/Rates/Laws.antt =====
-- What an accepted plan guarantees.
use mathlib.Core.Path.{subst}
use native.Mathlib.Nat.{
  one-le-pow, pow-le-pow_right, pow-suc, mul-div-le, lt-mul-div-succ, le-div_iff_mul-le, mul_comm,
  mul_assoc, mul-div_right,
}
use rtl_ais_android.Base.Int.{mul_mono}
use rtl_ais_android.Base.{
  ℕ, zero, suc, ◌+◌, ◌-◌, ◌*◌, ◌/◌, ◌^◌, ◌≤◌, ◌<◌, ◌≡◌, ◌↔◌, refl, arith, ltb, ltb→lt, ltb→le, ap,
  sym, Bool-cases, inl, inr,
}
use native.Mathlib.Numerals.{add-one}
use rtl_ais_android.Session.Rates.{Logarithm, Tuned, Plan, planned, plan_lengths, plan_rates, plan}

module _ (log : Logarithm) (o : Tuned) where
  abbrev pub delta : ℕ
  delta = o.right_freq - o.left_freq

  abbrev pub i : ℕ
  i = log.log2 2400000 delta

  abbrev pub j : ℕ
  j = log.log2 (delta * 2 ^ i / (delta * 2)) 1

  abbrev pub k : ℕ
  k = log.log2 (delta * 2 / o.sample_rate) 1

  -- What the checks let through.
  pub record Checked (p : Plan) : Type 0 where
    pub order : o.left_freq ≤ o.right_freq
    pub apart : 0 < delta
    pub near : delta ≤ 1200000
    pub sampled : 0 < o.sample_rate
    pub narrow : o.sample_rate ≤ delta * 2
    pub output : delta * 2 / 2 ^ k ≤ o.output_rate
    pub lengths : p ≡ plan_lengths log o delta i j k

  pub checked : (p : Plan) → plan log o ≡ planned p → Checked p
  unfolding plan plan_rates
  checked p e = ground arith

-- 2 ^ a < 2 ^ (b + 1) only where a ≤ b.
pub pow_reflect : (a b : ℕ) → 2 ^ a < 2 ^ suc b → a ≤ b
pow_reflect a b h = elim (Bool-cases (ltb b a)) [
  | inl more ↦ absurd (
      omega
        (arith, h, pow-le-pow_right {n = 2} (omega arith) {i = suc b} {j = a} (ltb→lt b a more)))
  | inr less ↦ ltb→le b a less
]

module _ (log : Logarithm) (o : Tuned) (p : Plan) (h : Checked log o p) where
  abbrev pub d : ℕ
  d = delta log o

  pub rate_bounds : (d * 2 ^ i log o ≤ 2400000) × (2400000 < 2 * (d * 2 ^ i log o))
  rate_bounds = (
    log.lower 2400000 d h.apart (omega (arith, h.near)),
    omega (
      arith,
      log.upper 2400000 d h.apart (omega (arith, h.near)),
      add-one (i log o),
      ap (λ (t : ℕ). d * t) (pow-suc 2 (i log o)),
      ap (λ (t : ℕ). d * 2 ^ t) (add-one (i log o)),
    ),
  )

  i_pos : (n : ℕ) → i log o ≡ n → 0 < n
  i_pos zero e =
      let one : 2 ^ i log o ≡ 1 = rw e refl in
      absurd (omega (arith, rate_bounds.1, h.near, ap (λ (t : ℕ). d * t) one))
  i_pos (suc n) e = omega arith

  quotient : (m : ℕ) → i log o ≡ suc m → d * 2 ^ i log o / (d * 2) ≡ 2 ^ m
  quotient m e =
      let product : d * 2 ^ i log o ≡ d * 2 * 2 ^ m =
        omega (arith, ap (λ (t : ℕ). d * 2 ^ t) e, ap (λ (t : ℕ). d * t) (pow-suc 2 m)) in
      rw product (mul-div_right (2 ^ m) {m = d * 2} (omega (arith, h.apart)))

  log_pow : (q m : ℕ) → q ≡ 2 ^ m → log.log2 q 1 ≡ m
  log_pow q m e =
      let pos : 1 ≤ 2 ^ m = one-le-pow m 2 (omega arith) in
      let lower = log.lower q 1 (omega arith) (omega arith) in
      let upper = log.upper q 1 (omega arith) (omega arith) in
      let up = ap (λ (t : ℕ). 2 ^ t) (add-one (log.log2 q 1)) in
      omega (
        arith,
        pow_reflect (log.log2 q 1) m (omega (arith, pow-suc 2 m)),
        pow_reflect m (log.log2 q 1) (omega arith),
      )

  passes_at : (n : ℕ) → i log o ≡ n → n ≡ suc (j log o)
  passes_at zero e = absurd (omega (arith, i_pos zero e))
  passes_at (suc m) e = ap suc (sym (log_pow _ m (quotient m e)))

  -- The first stage has one pass less than the rate has doublings.
  passes : i log o ≡ suc (j log o)
  passes = passes_at (i log o) refl

  pub pow_passes : 2 ^ i log o ≡ 2 * 2 ^ j log o
  pow_passes = omega (arith, ap (λ (t : ℕ). 2 ^ t) passes, pow-suc 2 (j log o))

  pub second_rate :
      (o.sample_rate ≤ d * 2 / 2 ^ k log o) × (d * 2 / 2 ^ k log o < 2 * o.sample_rate)
  second_rate =
      let q = d * 2 / o.sample_rate in
      let two_k = 2 ^ k log o in
      let some : 1 ≤ q = (le-div_iff_mul-le h.sampled).1 (omega (arith, h.narrow)) in
      let lower = log.lower q 1 (omega arith) some in
      let upper = log.upper q 1 (omega arith) some in
      let up : 2 ^ (k log o + 1) ≡ 2 * two_k =
        omega (arith, ap (λ (t : ℕ). 2 ^ t) (add-one (k log o)), pow-suc 2 (k log o)) in
      let pos_k : 0 < two_k = one-le-pow (k log o) 2 (omega arith) in
      let at_most : o.sample_rate * two_k ≤ d * 2 = omega (
        arith,
        mul_mono o.sample_rate two_k o.sample_rate q (omega arith) (omega arith),
        mul-div-le (d * 2) o.sample_rate,
      ) in
      let below : d * 2 < 2 * o.sample_rate * two_k = omega (
        arith,
        lt-mul-div-succ (d * 2) {b = o.sample_rate} h.sampled,
        mul_mono o.sample_rate (q + 1) o.sample_rate (2 * two_k) (omega arith) (omega arith),
      ) in
      (
        (le-div_iff_mul-le pos_k).1 at_most,
        elim (Bool-cases (ltb (d * 2 / two_k) (2 * o.sample_rate))) [
          | inl less ↦ ltb→lt _ _ less
          | inr more ↦ absurd (omega (arith, below, (le-div_iff_mul-le pos_k).0 (ltb→le _ _ more)))
        ],
      )

  few_passes : j log o ≤ 10 → 586 ≤ d
  few_passes few =
      let power : 2 ^ i log o ≤ 2 ^ 11 =
        pow-le-pow_right {n = 2} (omega arith) {i = i log o} {j = 11}
          (omega (arith, passes, few)) in
      omega (arith, rate_bounds.1, mul_mono d (2 ^ i log o) d (2 ^ 11) (omega arith) power)

  pub far_apart : (n b : ℕ) → 2400000 < b * 2 ^ suc (suc n) → b ≤ d → j log o ≤ n
  far_apart n b high apart = elim (Bool-cases (ltb n (j log o))) [
    | inl more ↦
        let power : 2 ^ suc (suc n) ≤ 2 ^ i log o =
          pow-le-pow_right {n = 2} (omega arith) {i = suc (suc n)} {j = i log o}
            (omega (arith, passes, ltb→lt n (j log o) more)) in
        absurd (
          omega
            (arith, rate_bounds.0, high, mul_mono b (2 ^ suc (suc n)) d (2 ^ i log o) apart power))
    | inr less ↦ ltb→le _ _ less
  ]

-- A plan that is accepted, whatever logarithm with its two laws is used: the device is sampled between
-- 1.2 and 2.4 MHz; the first stage divides that exactly to twice the distance of the channels,
-- which the second stage takes over; and the rate of a channel is at least the one asked for, less
-- than twice it, and no more than the output rate.
pub plan-rates :
    (log : Logarithm) (o : Tuned) (p : Plan)
    → plan log o ≡ planned p
    → (1200000 < p.dongle_rate)
      × (p.dongle_rate ≤ 2400000)
      × (p.both.rate_in ≡ p.dongle_rate)
      × (p.both.rate_in ≡ p.both.downsample * p.both.rate_out)
      × (p.both.rate_out ≡ 2 * (o.right_freq - o.left_freq))
      × (p.left.rate_in ≡ p.both.rate_out)
      × (o.sample_rate ≤ p.left.rate_out)
      × (p.left.rate_out < 2 * o.sample_rate)
      × (p.left.rate_out ≤ o.output_rate)
unfolding plan_lengths
plan-rates log o p e =
    let h = checked log o p e in
    let bounds = rate_bounds log o p h in
    let second = second_rate log o p h in
    let doubled = pow_passes log o p h in
    let scaled = mul_assoc (delta log o) 2 (2 ^ j log o) in
    rw h.lengths (
      omega (arith, bounds.1),
      omega (arith, bounds.0),
      refl,
      omega (
        arith,
        ap (λ (t : ℕ). delta log o * t) doubled,
        mul_comm (2 ^ j log o) (delta log o * 2),
        scaled,
      ),
      omega arith,
      refl,
      second.0,
      second.1,
      h.output,
    )

-- The first stage of an accepted plan, where the channels are far enough apart for `n` passes at most.
pub plan-few :
    (log : Logarithm) (o : Tuned) (p : Plan)
    → plan log o ≡ planned p
    → (n b : ℕ) → 2400000 < b * 2 ^ suc (suc n)
    → b ≤ o.right_freq - o.left_freq
    → (p.both.downsample_passes ≤ n) × (p.both.len_in ≡ 262144)
unfolding plan_lengths
plan-few log o p e n b high apart =
    let h = checked log o p e in rw h.lengths (far_apart log o p h n b high apart, refl)

-- The lengths of an accepted plan.
pub record Lengths (o : Tuned) (p : Plan) : Type 0 where
  pub rate : p.left.rate_in * p.both.downsample ≡ p.dongle_rate
  pub positive : 0 < p.dongle_rate
  pub few : p.left.rate_out ≤ o.output_rate
  pub result_len : p.left_result_len ≡ 262144 / p.both.downsample / p.left.downsample / 2
  pub right_result_len : p.right_result_len ≡ p.left_result_len
  pub bl_len : p.bl_len ≡ 131072 * o.output_rate / p.dongle_rate
  pub br_len : p.br_len ≡ p.bl_len

pub plan-Lengths : (log : Logarithm) (o : Tuned) (p : Plan) → plan log o ≡ planned p → Lengths o p
unfolding plan_lengths
plan-Lengths log o p e =
    let h = checked log o p e in
    let doubled = pow_passes log o p h in
    let bounds = rate_bounds log o p h in
    subst (λ q. Lengths o q) (sym h.lengths)
      (record {
        rate = omega (
          arith,
          ap (λ (t : ℕ). delta log o * t) doubled,
          mul_assoc (delta log o) 2 (2 ^ j log o),
        );
        positive = omega (arith, bounds.1);
        few = h.output;
        result_len = refl;
        right_result_len = refl;
        bl_len = refl;
        br_len = refl;
      })

-- The passes of the first stage index the ten rows of its histories, and the eleven rows of
-- `cic_9_tables`, in range exactly when the channels are 586 Hz or more apart.
pub plan-passes_iff :
    (log : Logarithm) (o : Tuned) (p : Plan)
    → plan log o ≡ planned p
    → (p.both.downsample_passes ≤ 10) ↔ (586 ≤ o.right_freq - o.left_freq)
unfolding plan_lengths
plan-passes_iff log o p e =
    let h = checked log o p e in
    rw h.lengths
      (λ few. few_passes log o p h few, λ apart. far_apart log o p h 10 586 (omega arith) apart)
