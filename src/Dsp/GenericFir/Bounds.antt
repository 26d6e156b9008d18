-- ===== src/Dsp/GenericFir/Bounds.antt =====
-- When the 32-bit sum and the 16-bit store of `generic_fir` are exact.
use rtl_ais_android.Base.{
  ℕ, zero, suc, ◌+◌, ◌*◌, ◌≤◌, ◌<◌, ◌≡◌, arith, Array, List, [], get_or, ◌∙◌, inl, inr, ltb, ltb→lt,
  ltb→le, Bool-cases,
}
use rtl_ais_android.Base.Int.{
  ℤ, ◌+ℤ◌, shr, to_int32, Within, int_laws, shr15_floor, to_int16_fits, to_int32_fits, *ℤ-Within,
  mul_mono,
}
use rtl_ais_android.Dsp.GenericFir.{
  History, weight, folded_sum, filtered, generic_fir, cic_9_tables,
}
use rtl_ais_android.Dsp.GenericFir.Window.{stream, window, IsFiltered, generic_fir-IsFiltered}

-- Every value of the history has magnitude at most `b`.
pub record HistoryWithin (b : ℕ) (h : History) : Type 0 where
  pub w0 : Within b h.h0
  pub w1 : Within b h.h1
  pub w2 : Within b h.h2
  pub w3 : Within b h.h3
  pub w4 : Within b h.h4
  pub w5 : Within b h.h5
  pub w6 : Within b h.h6
  pub w7 : Within b h.h7
  pub w8 : Within b h.h8

-- The weights have magnitudes with 2 * (c1 + c2 + c3 + c4) + c5 at most 144156.
pub record WeightsWithin (fir : List ℤ) : Type 0 where
  pub c1 : ℕ
  pub c2 : ℕ
  pub c3 : ℕ
  pub c4 : ℕ
  pub c5 : ℕ
  pub m1 : Within c1 (weight fir 1)
  pub m2 : Within c2 (weight fir 2)
  pub m3 : Within c3 (weight fir 3)
  pub m4 : Within c4 (weight fir 4)
  pub m5 : Within c5 (weight fir 5)
  pub total : 2 * (c1 + c2 + c3 + c4) + c5 ≤ 144156

pair-Within : (b : ℕ) (x y : ℤ) → Within b x → Within b y → Within (2 * b) (x +ℤ y)
pair-Within b x y h k = (omega int_laws, omega int_laws)

add-Within : (m n : ℕ) (x y : ℤ) → Within m x → Within n y → Within (m + n) (x +ℤ y)
add-Within m n x y h k = (omega int_laws, omega int_laws)

Within-le : (m n : ℕ) (x : ℤ) → m ≤ n → Within m x → Within n x
Within-le m n x le h = (omega arith, omega arith)

module _ (b : ℕ) (fir : List ℤ) (h : History) (w : WeightsWithin fir) (hw : HistoryWithin b h) where
  folded_sum-Within : Within (144156 * b) (folded_sum fir h)
  unfolding folded_sum
  folded_sum-Within = Within-le _ (144156 * b) _ small (
      add-Within _ _ _ _
        (add-Within _ _ _ _
          (add-Within _ _ _ _
            (add-Within _ _ _ _
              (*ℤ-Within (2 * b) w.c1 _ _ (pair-Within b h.h0 h.h8 hw.w0 hw.w8) w.m1)
              (*ℤ-Within (2 * b) w.c2 _ _ (pair-Within b h.h1 h.h7 hw.w1 hw.w7) w.m2))
            (*ℤ-Within (2 * b) w.c3 _ _ (pair-Within b h.h2 h.h6 hw.w2 hw.w6) w.m3))
          (*ℤ-Within (2 * b) w.c4 _ _ (pair-Within b h.h3 h.h5 hw.w3 hw.w5) w.m4))
        (*ℤ-Within b w.c5 _ _ hw.w4 w.m5))
    where
      small : 2 * b * w.c1 + 2 * b * w.c2 + 2 * b * w.c3 + 2 * b * w.c4 + b * w.c5 ≤ 144156 * b
      small = omega (
        arith,
        mul_mono (2 * (w.c1 + w.c2 + w.c3 + w.c4) + w.c5) b 144156 b w.total (omega arith),
      )

  filtered_exact : b ≤ 7448 → filtered fir h ≡ shr 15 (folded_sum fir h)
  unfolding filtered
  filtered_exact small =
      let sum = folded_sum-Within in
      let whole : to_int32 (folded_sum fir h) ≡ folded_sum fir h =
        to_int32_fits (folded_sum fir h) (omega arith) (omega arith) in
      rw whole (
        to_int16_fits (shr 15 (folded_sum fir h)) (omega (arith, shr15_floor (folded_sum fir h)))
          (omega (arith, shr15_floor (folded_sum fir h))))

  filtered-Within : b ≤ 7448 → Within (5 * b) (filtered fir h)
  filtered-Within small =
      let sum = folded_sum-Within in
      rw (filtered_exact small) (
        omega (arith, shr15_floor (folded_sum fir h)),
        omega (arith, shr15_floor (folded_sum fir h)),
      )

-- A row of five magnitudes.
row-WeightsWithin :
    (fir : List ℤ) (c1 c2 c3 c4 c5 : ℕ)
    → Within c1 (weight fir 1)
    → Within c2 (weight fir 2)
    → Within c3 (weight fir 3)
    → Within c4 (weight fir 4)
    → Within c5 (weight fir 5)
    → 2 * (c1 + c2 + c3 + c4) + c5 ≤ 144156
    → WeightsWithin fir
row-WeightsWithin fir c1 c2 c3 c4 c5 m1 m2 m3 m4 m5 total = record {
  c1 = c1;
  c2 = c2;
  c3 = c3;
  c4 = c4;
  c5 = c5;
  m1 = m1;
  m2 = m2;
  m3 = m3;
  m4 = m4;
  m5 = m5;
  total = total;
}

-- The rows of `cic_9_tables` all have small weights.
pub cic_9-WeightsWithin : (n : ℕ) → WeightsWithin (get_or cic_9_tables n [])
cic_9-WeightsWithin zero =
    row-WeightsWithin _ 0 0 0 0 0 (omega arith) (omega arith) (omega arith) (omega arith)
      (omega arith) (omega arith)
cic_9-WeightsWithin (suc zero) =
    row-WeightsWithin _ 156 97 2798 15489 61019 (omega arith) (omega arith) (omega arith)
      (omega arith) (omega arith) (omega arith)
cic_9-WeightsWithin (suc (suc zero)) =
    row-WeightsWithin _ 128 568 5593 24125 74126 (omega arith) (omega arith) (omega arith)
      (omega arith) (omega arith) (omega arith)
cic_9-WeightsWithin (suc (suc (suc zero))) =
    row-WeightsWithin _ 129 639 6187 26281 77511 (omega arith) (omega arith) (omega arith)
      (omega arith) (omega arith) (omega arith)
cic_9-WeightsWithin (suc (suc (suc (suc zero)))) =
    row-WeightsWithin _ 122 612 6082 26353 77818 (omega arith) (omega arith) (omega arith)
      (omega arith) (omega arith) (omega arith)
cic_9-WeightsWithin (suc (suc (suc (suc (suc zero))))) =
    row-WeightsWithin _ 120 602 6015 26269 77757 (omega arith) (omega arith) (omega arith)
      (omega arith) (omega arith) (omega arith)
cic_9-WeightsWithin (suc (suc (suc (suc (suc (suc zero)))))) =
    row-WeightsWithin _ 120 582 5951 26128 77542 (omega arith) (omega arith) (omega arith)
      (omega arith) (omega arith) (omega arith)
cic_9-WeightsWithin (suc (suc (suc (suc (suc (suc (suc zero))))))) =
    row-WeightsWithin _ 119 580 5931 26094 77505 (omega arith) (omega arith) (omega arith)
      (omega arith) (omega arith) (omega arith)
cic_9-WeightsWithin (suc (suc (suc (suc (suc (suc (suc (suc zero)))))))) =
    row-WeightsWithin _ 119 578 5921 26077 77484 (omega arith) (omega arith) (omega arith)
      (omega arith) (omega arith) (omega arith)
cic_9-WeightsWithin (suc (suc (suc (suc (suc (suc (suc (suc (suc zero))))))))) =
    row-WeightsWithin _ 119 577 5917 26067 77473 (omega arith) (omega arith) (omega arith)
      (omega arith) (omega arith) (omega arith)
cic_9-WeightsWithin (suc (suc (suc (suc (suc (suc (suc (suc (suc (suc zero)))))))))) =
    row-WeightsWithin _ 199 362 5303 25505 77489 (omega arith) (omega arith) (omega arith)
      (omega arith) (omega arith) (omega arith)
cic_9-WeightsWithin (suc (suc (suc (suc (suc (suc (suc (suc (suc (suc (suc n))))))))))) =
    row-WeightsWithin _ 0 0 0 0 0 (omega arith) (omega arith) (omega arith) (omega arith)
      (omega arith) (omega arith)

module _ (b p length : ℕ) (fir : List ℤ) (hist : History) (buf : Array ℤ)
    (weights : WeightsWithin fir) (hw : HistoryWithin b hist)
    (bw : (n : ℕ) → Within b (buf (p + 2 * n))) where
  stream-Within : (n : ℕ) → Within b (stream p hist buf n)
  stream-Within zero = hw.w0
  stream-Within (suc zero) = hw.w1
  stream-Within (suc (suc zero)) = hw.w2
  stream-Within (suc (suc (suc zero))) = hw.w3
  stream-Within (suc (suc (suc (suc zero)))) = hw.w4
  stream-Within (suc (suc (suc (suc (suc zero))))) = hw.w5
  stream-Within (suc (suc (suc (suc (suc (suc zero)))))) = hw.w6
  stream-Within (suc (suc (suc (suc (suc (suc (suc zero))))))) = hw.w7
  stream-Within (suc (suc (suc (suc (suc (suc (suc (suc zero)))))))) = hw.w8
  stream-Within (suc (suc (suc (suc (suc (suc (suc (suc (suc n))))))))) = bw n

  window-HistoryWithin : (n : ℕ) → HistoryWithin b (window (stream p hist buf) n)
  window-HistoryWithin n = record {
    w0 = stream-Within n;
    w1 = stream-Within (suc n);
    w2 = stream-Within (suc (suc n));
    w3 = stream-Within (suc (suc (suc n)));
    w4 = stream-Within (suc (suc (suc (suc n))));
    w5 = stream-Within (suc (suc (suc (suc (suc n)))));
    w6 = stream-Within (suc (suc (suc (suc (suc (suc n))))));
    w7 = stream-Within (suc (suc (suc (suc (suc (suc (suc n)))))));
    w8 = stream-Within (suc (suc (suc (suc (suc (suc (suc (suc n))))))));
  }

  -- For a history and a block within 7448 and small weights, `generic_fir` computes without
  -- overflow: each value is the weighed sum of its nine-value window shifted down by 15, all it
  -- leaves in its half of the block is within five times the level, and the history is within the
  -- level again.
  pub generic_fir-Within :
      b ≤ 7448
      → let r = generic_fir p length fir hist buf in
        ((k : ℕ)
          → 2 * k < length
          → r.buf (p + 2 * k) ≡ shr 15 (folded_sum fir (window (stream p hist buf) k)))
        × ((n : ℕ) → Within (5 * b) (r.buf (p + 2 * n)))
        × HistoryWithin b r.hist
  generic_fir-Within small = (exact, level, rw done.kept (window-HistoryWithin _))
    where
      done : IsFiltered p length fir hist buf (generic_fir p length fir hist buf)
      done = generic_fir-IsFiltered p length fir hist buf

      exact :
          (k : ℕ)
          → 2 * k < length
          → (generic_fir p length fir hist buf).buf (p + 2 * k)
            ≡ shr 15 (folded_sum fir (window (stream p hist buf) k))
      exact k lt = done.stored k lt ∙ filtered_exact b fir _ weights (window-HistoryWithin k) small

      level : (n : ℕ) → Within (5 * b) ((generic_fir p length fir hist buf).buf (p + 2 * n))
      level n = elim (Bool-cases (ltb (2 * n) length)) [
        | inl lt ↦
            rw (done.stored n (ltb→lt _ _ lt))
              (filtered-Within b fir _ weights (window-HistoryWithin n) small)
        | inr ge ↦
            rw (done.untouched (p + 2 * n) (λ k below e. absurd (omega (arith, ltb→le _ _ ge))))
              (Within-le b (5 * b) _ (omega arith) (bw n))
      ]
