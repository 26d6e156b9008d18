-- ===== src/Dsp/Demod/Dc.antt =====
-- `dc_block_filter`: the running estimate of the offset, and what is subtracted.
use rtl_ais_android.Base.{
  ℕ, zero, suc, ◌+◌, ◌-◌, ◌*◌, ◌/◌, ◌≤◌, ◌<◌, ◌≡◌, refl, arith, Array, ◌∙◌, if◌then◌else◌, ltb,
  lt→ltb, ap,
}
use rtl_ais_android.Base.Int.{
  ℤ, pos, negsuc, ◌+ℤ◌, ◌-ℤ◌, scale, div, div-Within, Within, to_int16, to_int16_fits, to_int32,
  to_int32_fits, int_laws, sub_ℕ_parts,
}
use native.Mathlib.Nat.{mul-div_right}
use native.Mathlib.Numerals.{add-one}
use rtl_ais_android.Base.Loop.{for_loop, for_loop_inv}
use rtl_ais_android.Dsp.Demod.{DemodState, sum_round, subtract_round, smoothed, dc_block_filter}

-- The sum of the first values.
abbrev pub sum_below : Array ℤ → ℕ → ℤ
sum_below a zero = pos 0
sum_below a (suc n) = sum_below a n +ℤ a n

-- The mean of the block, rounded toward zero.
abbrev pub mean : Array ℤ → ℕ → ℤ
mean a n = div (sum_below a n) n

module _ (d : DemodState) where
  -- The estimate that a call leaves.
  abbrev pub estimate : ℤ
  estimate = smoothed (mean d.result d.result_len) d.dc_avg

  abbrev Summed : ℕ → ℤ → Type 0
  Summed i sum = (i ≤ d.result_len) × (sum ≡ sum_below d.result i)

  sum_loop :
      for_loop 0 1 d.result_len (sum_round d.result) (pos 0) ≡ sum_below d.result d.result_len
  unfolding sum_round
  sum_loop =
      let (i, past, h) =
        for_loop_inv Summed 1 d.result_len (sum_round d.result) (omega arith)
          (λ i sum lt h. (omega arith, rw add-one (ap (λ t. t +ℤ d.result i) h.1))) 0 (pos 0)
          (omega arith, refl) in
      let e : i ≡ d.result_len = omega (arith, h.0) in rw e at h.1

  abbrev Subtracted : ℕ → Array ℤ → Type 0
  Subtracted i a =
      (i ≤ d.result_len)
      × ((j : ℕ) → a j ≡ (if ltb j i then to_int16 (d.result j -ℤ estimate) else d.result j))

  subtract_loop :
      (j : ℕ)
      → for_loop 0 1 d.result_len (subtract_round estimate) d.result j
        ≡ (if ltb j d.result_len then to_int16 (d.result j -ℤ estimate) else d.result j)
  unfolding subtract_round
  subtract_loop j =
      let (i, past, h) =
        for_loop_inv Subtracted 1 d.result_len (subtract_round estimate) (omega arith)
          (λ i a lt h. (omega arith, λ k. ground (arith, h.1 i, h.1 k))) 0 d.result
          (omega arith, λ k. ground arith) in
      let e : i ≡ d.result_len = omega (arith, h.0) in rw e at (h.1 j)

  -- The new estimate is a tenth of the mean of the block and nine tenths of the old one, and it is
  -- subtracted from each value of the block; the values beyond stay.
  pub dc_block_filter_lem :
      ((dc_block_filter d).dc_avg ≡ estimate)
      × ((j : ℕ)
          → (dc_block_filter d).result j
            ≡ (if ltb j d.result_len then to_int16 (d.result j -ℤ estimate) else d.result j))
  unfolding dc_block_filter
  dc_block_filter_lem = (rw sum_loop, λ j. rw sum_loop (subtract_loop j))

sum-Within :
    (b n : ℕ) (a : Array ℤ) → ((j : ℕ) → j < n → Within b (a j)) → Within (b * n) (sum_below a n)
sum-Within b zero a h = omega arith
sum-Within b (suc n) a h =
    let rest = sum-Within b n a (λ j lt. h j (omega arith)) in
    let last = h n (omega arith) in
    let more : b * suc n ≡ b * n + b = omega arith in (omega int_laws, omega int_laws)

div_ten : (z : ℤ) → Within 9 (z -ℤ scale 10 (div z 10))
unfolding div
div_ten (pos n) = omega int_laws
div_ten (negsuc n) = omega (int_laws, sub_ℕ_parts 0 (suc n / 10))

-- A block and an estimate within `b`, where 2 * b fits an int16_t: the new estimate is within `b`
-- too, and each value of the block has exactly it subtracted.
pub dc_block_filter-Within :
    (b : ℕ) (d : DemodState)
    → 2 * b ≤ 32767
    → Within b d.dc_avg
    → ((j : ℕ) → j < d.result_len → Within b (d.result j))
    → let d' = dc_block_filter d in
      Within b d'.dc_avg × ((j : ℕ) → j < d.result_len → d'.result j ≡ d.result j -ℤ d'.dc_avg)
dc_block_filter-Within b d small old values =
    let (avg, each) = dc_block_filter_lem d in
    let m = div-Within b d.result_len _ (sum-Within b d.result_len d.result values) in
    let total = mean d.result d.result_len +ℤ scale 9 d.dc_avg in
    let ten = div_ten total in
    let new : Within b (estimate d) =
      rw (to_int32_fits total (omega int_laws) (omega int_laws)) (omega int_laws, omega int_laws) in
    (
      rw avg new,
      λ j lt.
          let v = values j lt in
          let fits : to_int16 (d.result j -ℤ estimate d) ≡ d.result j -ℤ estimate d =
            to_int16_fits (d.result j -ℤ estimate d) (omega int_laws) (omega int_laws) in
          each j ∙ rw (lt→ltb j d.result_len lt, fits, avg),
    )

-- A constant block.
sum_constant :
    (c : ℤ) (n : ℕ) (a : Array ℤ) → ((j : ℕ) → j < n → a j ≡ c) → sum_below a n ≡ scale n c
sum_constant c zero a h = omega int_laws
sum_constant c (suc n) a h =
    rw (sum_constant c n a (λ j lt. h j (omega arith)), h n (omega arith)) (omega int_laws)

div-scale : (n : ℕ) (c : ℤ) → div (scale (suc n) c) (suc n) ≡ c
unfolding div
div-scale n (pos x) =
    let e : scale (suc n) (pos x) ≡ pos (suc n * x) = omega int_laws in
    rw (e, mul-div_right x {m = suc n} (omega arith))
div-scale n (negsuc x) =
    let e : scale (suc n) (negsuc x) ≡ negsuc (suc n * suc x - 1) = omega int_laws in
    let back : suc (suc n * suc x - 1) ≡ suc n * suc x = omega arith in
    rw (e, back, mul-div_right (suc x) {m = suc n} (omega arith)) (ground arith)

-- On a block that is constantly c, an int16_t, where the old estimate is within 2 ^ 27, so that no int
-- overflows: where the old estimate is at most m away from c, the new one is at most nine tenths of m
-- and 9/10 away.
pub dc_block_filter_converges :
    (c : ℤ) (m n : ℕ) (d : DemodState)
    → d.result_len ≡ suc n
    → ((j : ℕ) → j < d.result_len → d.result j ≡ c)
    → Within 32768 c
    → Within 134217728 d.dc_avg
    → Within m (d.dc_avg -ℤ c)
    → Within (9 * m + 9) (scale 10 ((dc_block_filter d).dc_avg -ℤ c))
dc_block_filter_converges c m n d len values small old near =
    let (avg, each) = dc_block_filter_lem d in
    let level : mean d.result d.result_len ≡ c =
      sum_mean (sum_constant c d.result_len d.result values) in
    let total = c +ℤ scale 9 d.dc_avg in
    let fits : to_int32 total ≡ total = to_int32_fits total (omega int_laws) (omega int_laws) in
    let ten = div_ten total in rw (avg, level, fits) (omega int_laws, omega int_laws)
  where
    sum_mean :
        sum_below d.result d.result_len ≡ scale d.result_len c → mean d.result d.result_len ≡ c
    sum_mean e = rw (e, len) (div-scale n c)
