-- ===== src/Dsp/Downsample/Decimation/Passes.antt =====
-- The passes one after the other, and the droop compensation.
use native.Mathlib.Nat.{pow-suc, one-le-pow, mul-div_cancel}
use native.Mathlib.Numerals.{add-one}
use mathlib.Core.Path.{subst}
use rtl_ais_android.Base.{
  ℕ, zero, suc, ◌+◌, ◌-◌, ◌*◌, ◌/◌, ◌^◌, ◌≤◌, ◌<◌, ◌≡◌, refl, ap, ◌∙◌, arith, Array, update, [],
  get_or, ◌==◌, ==_iff, Bool-cases, inl, inr,
}
use rtl_ais_android.Base.Int.{ℤ, mul_mono}
use rtl_ais_android.Base.Loop.{for_loop, for_loop_inv}
use rtl_ais_android.Dsp.FifthOrder.{Taps}
use rtl_ais_android.Dsp.FifthOrder.Window as Five
use rtl_ais_android.Dsp.GenericFir.{cic_9_tables}
use rtl_ais_android.Dsp.Downsample.{DownsampleState, pass, compensate, downsample}
use rtl_ais_android.Dsp.Downsample.Decimation.{after_five, passed, IsDecimation}
use rtl_ais_android.Dsp.Downsample.Decimation.Calls.{Carries, both_passes, both_firs}

pub pow_split : (n i : ℕ) → i ≤ n → 2 ^ n ≡ 2 ^ (n - i) * 2 ^ i
pow_split n zero le = let e : n - 0 ≡ n = omega arith in rw e (omega arith)
pow_split n (suc i) le =
    let e : n - i ≡ suc (n - suc i) = omega arith in
    let whole : 2 ^ n ≡ 2 ^ suc (n - suc i) * 2 ^ i =
      pow_split n i (omega arith) ∙ ap (λ m. 2 ^ m * 2 ^ i) e in
    rw (whole, pow-suc 2 (n - suc i), pow-suc 2 i) (omega arith)

-- The values of both halves at pass `i`.
pub length_at : (c n i : ℕ) → i ≤ n → 2 * (c * 2 ^ n) / 2 ^ i ≡ 2 * (c * 2 ^ (n - i))
length_at c n i le =
    let e : 2 * (c * 2 ^ n) ≡ 2 * (c * 2 ^ (n - i)) * 2 ^ i = rw (pow_split n i le) (omega arith) in
    ap (λ m. m / 2 ^ i) e ∙ mul-div_cancel (2 * (c * 2 ^ (n - i))) (one-le-pow i 2 (omega arith))

twice : (c n i : ℕ) → i < n → c * 2 ^ (n - i) ≡ 2 * (c * 2 ^ (n - suc i))
twice c n i lt =
    let e : n - i ≡ suc (n - suc i) = omega arith in rw (e, pow-suc 2 (n - suc i)) (omega arith)

-- The rows before pass `i`: those of the passes that are done hold their last window.
record Rows (c n : ℕ) (rows : Array Taps) (x : ℕ → ℤ) (i : ℕ) (kept : Array Taps) : Type 0 where
  pub used :
      (j : ℕ)
      → j < i
      → kept j ≡ Five.window (after_five (rows j) (passed rows x j)) (2 * (c * 2 ^ (n - suc j) - 1))
  pub rest : (j : ℕ) → i ≤ j → kept j ≡ rows j

update-Rows :
    (c n : ℕ) (rows : Array Taps) (x : ℕ → ℤ) (i : ℕ) (kept : Array Taps) (t : Taps)
    → Rows c n rows x i kept
    → t ≡ Five.window (after_five (rows i) (passed rows x i)) (2 * (c * 2 ^ (n - suc i) - 1))
    → Rows c n rows x (suc i) (update kept i t)
update-Rows c n rows x i kept t h e = record {
  used = λ j lt. elim (Bool-cases (i == j)) [
    | inl same ↦ rw (same, ← (==_iff i j).0 same) e
    | inr other ↦ rw other (h.used j (ground (arith, other, lt)))
  ];
  rest = λ j le. elim (Bool-cases (i == j)) [
    | inl same ↦ absurd (ground (arith, same, le))
    | inr other ↦ rw other (h.rest j (omega (arith, le)))
  ];
}

-- What a stage leaves of the signals `x` and `y`, its I and its Q values.
pub record AreDecimated (c : ℕ) (start : DownsampleState) (x y : ℕ → ℤ) (d : DownsampleState)
    : Type 0 where
  pub i_values :
      IsDecimation c start.downsample_passes start.lp_i_hist start.droop_i_hist x
        (λ k. d.buf (0 + 2 * k))
        d.lp_i_hist
        d.droop_i_hist
  pub q_values :
      IsDecimation c start.downsample_passes start.lp_q_hist start.droop_q_hist y
        (λ k. d.buf (1 + 2 * k))
        d.lp_q_hist
        d.droop_q_hist

module _ (c : ℕ) (start : DownsampleState) (some_data : 0 < c)
    (whole : start.len_in ≡ 2 * (c * 2 ^ start.downsample_passes)) (x y : ℕ → ℤ) where
  abbrev n : ℕ
  n = start.downsample_passes

  -- Before pass `i`.
  record AtPass (i : ℕ) (d : DownsampleState) : Type 0 where
    pub reached : i ≤ n
    pub same_len : d.len_in ≡ start.len_in
    pub same_passes : d.downsample_passes ≡ n
    pub same_droop_i : d.droop_i_hist ≡ start.droop_i_hist
    pub same_droop_q : d.droop_q_hist ≡ start.droop_q_hist
    pub i_block : Carries 0 (c * 2 ^ (n - i)) (passed start.lp_i_hist x i) d.buf
    pub q_block : Carries 1 (c * 2 ^ (n - i)) (passed start.lp_q_hist y i) d.buf
    pub i_rows : Rows c n start.lp_i_hist x i d.lp_i_hist
    pub q_rows : Rows c n start.lp_q_hist y i d.lp_q_hist

  pass-AtPass : (i : ℕ) (d : DownsampleState) → i < n → AtPass i d → AtPass (i + 1) (pass i d)
  unfolding pass passed
  pass-AtPass i d lt h =
      let t = c * 2 ^ (n - suc i) in
      let positive : 0 < t =
        mul_mono 1 1 c (2 ^ (n - suc i)) some_data (one-le-pow (n - suc i) 2 (omega arith)) in
      let length : d.len_in / 2 ^ i ≡ 2 * (2 * t) =
        ap (λ m. m / 2 ^ i) (h.same_len ∙ whole)
        ∙ length_at c n i (omega arith)
        ∙ ap (λ m. 2 * m) (twice c n i lt) in
      let (i_out, q_out, i_taps, q_taps) =
        both_passes t (start.lp_i_hist i) (start.lp_q_hist i) _ _ d.buf positive
          (subst (λ m. Carries 0 m (passed start.lp_i_hist x i) d.buf) (twice c n i lt) h.i_block)
          (subst (λ m. Carries 1 m (passed start.lp_q_hist y i) d.buf) (twice c n i lt)
            h.q_block) in
      let row_i = h.i_rows.rest i (omega arith) in
      let row_q = h.q_rows.rest i (omega arith) in
      record {
        reached = omega arith;
        same_len = h.same_len;
        same_passes = h.same_passes;
        same_droop_i = h.same_droop_i;
        same_droop_q = h.same_droop_q;
        i_block = rw (add-one, length, row_i, row_q) i_out;
        q_block = rw (add-one, length, row_i, row_q) q_out;
        i_rows =
            rw (add-one, length, row_i)
              (update-Rows c n start.lp_i_hist x i d.lp_i_hist _ h.i_rows i_taps);
        q_rows =
            rw (add-one, length, row_i, row_q)
              (update-Rows c n start.lp_q_hist y i d.lp_q_hist _ h.q_rows q_taps);
      }

  compensate-AreDecimated :
      (d : DownsampleState) → AtPass n d → AreDecimated c start x y (compensate d)
  unfolding compensate
  compensate-AreDecimated d h =
      let fir = get_or cic_9_tables n [] in
      let all : c * 2 ^ (n - n) ≡ c = let none : n - n ≡ 0 = omega arith in rw none (omega arith) in
      let length : d.len_in / 2 ^ n ≡ 2 * c =
        ap (λ m. m / 2 ^ n) (h.same_len ∙ whole)
        ∙ length_at c n n (omega arith)
        ∙ ap (λ m. 2 * m) all in
      let (i_out, q_out, i_hist, q_hist) =
        both_firs c fir start.droop_i_hist start.droop_q_hist _ _ d.buf some_data
          (subst (λ m. Carries 0 m (passed start.lp_i_hist x n) d.buf) all h.i_block)
          (subst (λ m. Carries 1 m (passed start.lp_q_hist y n) d.buf) all h.q_block) in
      record {
        i_values = record {
          stored = rw (h.same_passes, length, h.same_droop_i, h.same_droop_q) i_out;
          last_windows = h.i_rows.used;
          other_rows = h.i_rows.rest;
          last_values = rw (h.same_passes, length, h.same_droop_i) i_hist;
        };
        q_values = record {
          stored = rw (h.same_passes, length, h.same_droop_i, h.same_droop_q) q_out;
          last_windows = h.q_rows.used;
          other_rows = h.q_rows.rest;
          last_values = rw (h.same_passes, length, h.same_droop_i, h.same_droop_q) q_hist;
        };
      }

  -- A stage of 2 * c * 2 ^ passes values, c not 0, whose block holds the signals `x` and `y`: the I
  -- values and the Q values that it leaves, and their histories, are what the decimation of `x` alone
  -- and of `y` alone gives.
  pub downsample-AreDecimated :
      Carries 0 (c * 2 ^ n) x start.buf
      → Carries 1 (c * 2 ^ n) y start.buf
      → AreDecimated c start x y (downsample start)
  unfolding downsample passed
  downsample-AreDecimated xs ys =
      let none : n - 0 ≡ n = omega arith in
      let (last, past, h) = for_loop_inv AtPass 1 n pass (omega arith) pass-AtPass 0 start (record {
        reached = omega arith;
        same_len = refl;
        same_passes = refl;
        same_droop_i = refl;
        same_droop_q = refl;
        i_block = rw none xs;
        q_block = rw none ys;
        i_rows = record { used = λ j lt. absurd (omega (arith, lt)); rest = λ j le. refl };
        q_rows = record { used = λ j lt. absurd (omega (arith, lt)); rest = λ j le. refl };
      }) in
      let e : last ≡ n = omega (arith, h.reached) in
      compensate-AreDecimated (for_loop 0 1 n pass start) (rw e at h)
