-- ===== src/Dsp/Downsample/Level.antt =====
-- The level of the signal through `downsample`, pass by pass and block after block.
use rtl_ais_android.Base.{
  ℕ, suc, ◌+◌, ◌-◌, ◌*◌, ◌/◌, ◌^◌, ◌≤◌, ◌<◌, ◌≡◌, refl, arith, Array, update, sym, ap, List, [],
  get_or, ◌==◌, ==_iff, Bool-cases, inl, inr,
}
use native.Mathlib.Nat.{pow-le-pow_right, pow-suc, one-le-pow, le-div_iff_mul-le}
use mathlib.Core.Path.{subst}
use native.Mathlib.Numerals.{add-one}
use rtl_ais_android.Base.Int.{ℤ, mul_mono}
use rtl_ais_android.Base.Loop.{for_loop, for_loop_inv}
use rtl_ais_android.Dsp.FifthOrder.{Taps, Pass, fifth_order}
use rtl_ais_android.Dsp.FifthOrder.Window.{fifth_order-IsDecimated}
use rtl_ais_android.Dsp.FifthOrder.Bounds.{TapsWithin, BlockWithin, fifth_order-Within}
use rtl_ais_android.Dsp.GenericFir.{History, generic_fir, cic_9_tables}
use rtl_ais_android.Dsp.GenericFir.Window.{generic_fir-IsFiltered}
use rtl_ais_android.Dsp.GenericFir.Bounds.{HistoryWithin, cic_9-WeightsWithin, generic_fir-Within}
use rtl_ais_android.Dsp.Downsample.{DownsampleState, pass, compensate, downsample}

-- What each history may hold: the level doubles from pass to pass.
pub record HistoriesWithin (b : ℕ) (d : DownsampleState) : Type 0 where
  pub lp_i : (i : ℕ) → TapsWithin (b * 2 ^ i) (d.lp_i_hist i)
  pub lp_q : (i : ℕ) → TapsWithin (b * 2 ^ i) (d.lp_q_hist i)
  pub droop_i : HistoryWithin (b * 2 ^ d.downsample_passes) d.droop_i_hist
  pub droop_q : HistoryWithin (b * 2 ^ d.downsample_passes) d.droop_q_hist

-- A call over one half of the block leaves the other half alone.
pub other_half :
    (length n : ℕ) (hist : Taps) (buf : Array ℤ)
    → 0 < length
    → (fifth_order 0 length hist buf).buf (1 + 2 * n) ≡ buf (1 + 2 * n)
other_half length n hist buf h =
    (fifth_order-IsDecimated 0 length hist buf h).untouched (1 + 2 * n) (λ k lt. omega arith)

pub other_half_q :
    (length n : ℕ) (hist : Taps) (buf : Array ℤ)
    → 0 < length
    → (fifth_order 1 length hist buf).buf (0 + 2 * n) ≡ buf (0 + 2 * n)
other_half_q length n hist buf h =
    (fifth_order-IsDecimated 1 length hist buf h).untouched (0 + 2 * n) (λ k lt. omega arith)

-- Both calls of a pass at level `l`.
module _ (l n : ℕ) (hi hq : Taps) (buf : Array ℤ) (long : 2 ≤ n) (small : 2 * l ≤ 32767)
    (wi : TapsWithin l hi) (wq : TapsWithin l hq) (bi : BlockWithin l 0 buf)
    (bq : BlockWithin l 1 buf) where
  abbrev after_i : Pass
  after_i = fifth_order 0 n hi buf

  abbrev after_q : Pass
  after_q = fifth_order 1 (n - 1) hq after_i.buf

  record CallsWithin : Type 0 where
    pub i_level : BlockWithin (2 * l) 0 after_q.buf
    pub q_level : BlockWithin (2 * l) 1 after_q.buf
    pub i_taps : TapsWithin l after_i.taps
    pub q_taps : TapsWithin l after_q.taps

  two_calls : CallsWithin
  two_calls =
      let (raised_i, exact_i, kept_i) = fifth_order-Within l 0 n hi buf wi bi small (omega arith) in
      let untouched = λ (k : ℕ). other_half n k hi buf (omega arith) in
      let (raised_q, exact_q, kept_q) =
        fifth_order-Within l 1 (n - 1) hq after_i.buf wq (λ k. rw (untouched k) (bq k)) small
          (omega arith) in
      record {
        i_level = λ k. rw (other_half_q (n - 1) k hq after_i.buf (omega arith)) (raised_i k);
        q_level = raised_q;
        i_taps = kept_i;
        q_taps = kept_q;
      }

taps-update :
    (b i j : ℕ) (hist : Array Taps) (t : Taps)
    → TapsWithin (b * 2 ^ j) (hist j)
    → TapsWithin (b * 2 ^ i) t
    → TapsWithin (b * 2 ^ j) (update hist i t j)
taps-update b i j hist t old new = elim (Bool-cases (i == j)) [
  | inl same ↦ rw (same, ← (==_iff i j).0 same) new
  | inr other ↦ rw other old
]

-- The block of pass i has two values or more.
pub long_at :
    (start : DownsampleState) (i : ℕ)
    → 2 * 2 ^ start.downsample_passes ≤ start.len_in
    → i ≤ start.downsample_passes
    → 2 ≤ start.len_in / 2 ^ i
long_at start i long le =
    (le-div_iff_mul-le (one-le-pow i 2 (omega arith))).1
      (omega (arith, long, pow-le-pow_right {n = 2} (omega arith) le))

module _ (b : ℕ) (start : DownsampleState) (long : 2 * 2 ^ start.downsample_passes ≤ start.len_in)
    (small : b * 2 ^ start.downsample_passes ≤ 32767) where
  -- Before pass i.
  record AtPass (i : ℕ) (d : DownsampleState) : Type 0 where
    pub i_level : BlockWithin (b * 2 ^ i) 0 d.buf
    pub q_level : BlockWithin (b * 2 ^ i) 1 d.buf
    pub reached : i ≤ start.downsample_passes
    pub lp_i : (j : ℕ) → TapsWithin (b * 2 ^ j) (d.lp_i_hist j)
    pub lp_q : (j : ℕ) → TapsWithin (b * 2 ^ j) (d.lp_q_hist j)
    pub same_len : d.len_in ≡ start.len_in
    pub same_passes : d.downsample_passes ≡ start.downsample_passes
    pub same_droop_i : d.droop_i_hist ≡ start.droop_i_hist
    pub same_droop_q : d.droop_q_hist ≡ start.droop_q_hist

  double : (i : ℕ) → b * 2 ^ suc i ≡ 2 * (b * 2 ^ i)
  double i = omega (arith, ap (λ (t : ℕ). b * t) (pow-suc 2 i))

  small_at : (i : ℕ) → i < start.downsample_passes → 2 * (b * 2 ^ i) ≤ 32767
  small_at i lt = omega (
    arith,
    double i,
    mul_mono b (2 ^ suc i) b (2 ^ start.downsample_passes) (omega arith)
        (pow-le-pow_right {n = 2} (omega arith) lt),
  )

  pass-AtPass :
      (i : ℕ) (d : DownsampleState)
      → i < start.downsample_passes
      → AtPass i d
      → AtPass (i + 1) (pass i d)
  unfolding pass
  pass-AtPass i d lt h = record {
    i_level = rw (add-one, double i) calls.i_level;
    q_level = rw (add-one, double i) calls.q_level;
    reached = omega arith;
    lp_i = λ j. taps-update b i j d.lp_i_hist _ (h.lp_i j) calls.i_taps;
    lp_q = λ j. taps-update b i j d.lp_q_hist _ (h.lp_q j) calls.q_taps;
    same_len = h.same_len;
    same_passes = h.same_passes;
    same_droop_i = h.same_droop_i;
    same_droop_q = h.same_droop_q;
  }
    where
      calls :
          CallsWithin
            (b * 2 ^ i)
            (d.len_in / 2 ^ i)
            (d.lp_i_hist i)
            (d.lp_q_hist i)
            d.buf
            (rw h.same_len (long_at start i long (omega arith)))
            (small_at i lt)
            (h.lp_i i)
            (h.lp_q i)
            h.i_level
            h.q_level
      calls = two_calls _ _ _ _ _ _ _ _ _ _ _

-- The Q call of the droop filter leaves the I values alone, and the other way round.
pub fir_other_half :
    (length n : ℕ) (fir : List ℤ) (hist : History) (buf : Array ℤ)
    → (generic_fir 0 length fir hist buf).buf (1 + 2 * n) ≡ buf (1 + 2 * n)
fir_other_half length n fir hist buf =
    (generic_fir-IsFiltered 0 length fir hist buf).untouched (1 + 2 * n) (λ k lt. omega arith)

pub fir_other_half_q :
    (length n : ℕ) (fir : List ℤ) (hist : History) (buf : Array ℤ)
    → (generic_fir 1 length fir hist buf).buf (0 + 2 * n) ≡ buf (0 + 2 * n)
fir_other_half_q length n fir hist buf =
    (generic_fir-IsFiltered 1 length fir hist buf).untouched (0 + 2 * n) (λ k lt. omega arith)

HistoryWithin-level : {l m : ℕ} {h : History} → l ≡ m → HistoryWithin l h → HistoryWithin m h
HistoryWithin-level {h} e w = subst (λ k. HistoryWithin k h) e w

module _ (b : ℕ) (d : DownsampleState) (long : 2 * 2 ^ d.downsample_passes ≤ d.len_in)
    (small : b * 2 ^ d.downsample_passes ≤ 7448) (histories : HistoriesWithin b d)
    (i_in : BlockWithin b 0 d.buf) (q_in : BlockWithin b 1 d.buf) where
  abbrev fits : b * 2 ^ d.downsample_passes ≤ 32767
  fits = omega arith

  start-AtPass : AtPass b d long fits 0 d
  start-AtPass = record {
    i_level = let e : b * 2 ^ 0 ≡ b = omega arith in rw e i_in;
    q_level = let e : b * 2 ^ 0 ≡ b = omega arith in rw e q_in;
    reached = omega arith;
    lp_i = histories.lp_i;
    lp_q = histories.lp_q;
    same_len = refl;
    same_passes = refl;
    same_droop_i = refl;
    same_droop_q = refl;
  }

  module _ (e : DownsampleState) (h : AtPass b d long fits d.downsample_passes e) where
    compensate_level :
        HistoriesWithin b (compensate e)
        × BlockWithin (5 * (b * 2 ^ d.downsample_passes)) 0 (compensate e).buf
        × BlockWithin (5 * (b * 2 ^ d.downsample_passes)) 1 (compensate e).buf
    unfolding compensate
    compensate_level =
        let same_level = ap (λ (k : ℕ). b * 2 ^ k) (sym h.same_passes) in
        let n = e.len_in / 2 ^ e.downsample_passes in
        let fir = get_or cic_9_tables e.downsample_passes [] in
        let weights = cic_9-WeightsWithin e.downsample_passes in
        let r = generic_fir 0 n fir e.droop_i_hist e.buf in
        let (exact_i, level_i, kept_i) =
          generic_fir-Within (b * 2 ^ d.downsample_passes) 0 n fir e.droop_i_hist e.buf weights
            (rw h.same_droop_i histories.droop_i) h.i_level small in
        let (exact_q, level_q, kept_q) =
          generic_fir-Within (b * 2 ^ d.downsample_passes) 1 (n - 1) fir e.droop_q_hist r.buf
            weights (rw h.same_droop_q histories.droop_q)
            (λ k. rw (fir_other_half n k fir e.droop_i_hist e.buf) (h.q_level k)) small in
        (
          record {
            lp_i = h.lp_i;
            lp_q = h.lp_q;
            droop_i = HistoryWithin-level same_level kept_i;
            droop_q = HistoryWithin-level same_level kept_q;
          },
          λ k. rw (fir_other_half_q (n - 1) k fir e.droop_q_hist r.buf) (level_i k),
          level_q,
        )

  -- Of a block long enough for its passes, whose samples are within `b` with b * 2 ^ passes at most
  -- 7448, and histories as earlier such blocks leave them, `downsample` leaves I and Q values within
  -- five times b * 2 ^ passes, which an int16_t holds, and histories for which the next block of
  -- the same level is processed in the same way.
  pub downsample_level :
      HistoriesWithin b (downsample d)
      × BlockWithin (5 * (b * 2 ^ d.downsample_passes)) 0 (downsample d).buf
      × BlockWithin (5 * (b * 2 ^ d.downsample_passes)) 1 (downsample d).buf
  unfolding downsample
  downsample_level =
      let (last, past, h) =
        for_loop_inv (AtPass b d long fits) 1 d.downsample_passes pass (omega arith)
          (pass-AtPass b d long fits) 0 d start-AtPass in
      let e : last ≡ d.downsample_passes = omega (arith, h.reached) in
      compensate_level (for_loop 0 1 d.downsample_passes pass d) (rw e at h)
