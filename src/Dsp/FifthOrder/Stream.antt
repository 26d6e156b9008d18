-- ===== src/Dsp/FifthOrder/Stream.antt =====
-- What `fifth_order` carries from one block to the next.
use rtl_ais_android.Base.{
  ℕ, zero, suc, ◌+◌, ◌-◌, ◌*◌, ◌≤◌, ◌<◌, ◌≡◌, refl, sym, arith, Array, update, update_ne, ◌∙◌, ap,
}
use rtl_ais_android.Base.Int.{ℤ}
use rtl_ais_android.Dsp.FifthOrder.{Taps, weigh, fifth_order}
use rtl_ais_android.Dsp.FifthOrder.Window.{stream, window, IsDecimated, fifth_order-IsDecimated}

window_cong : (s t : ℕ → ℤ) (n : ℕ) → ((j : ℕ) → j ≤ n + 5 → s j ≡ t j) → window s n ≡ window t n
window_cong s t n same = λ i. record {
  a = same n (omega arith) i;
  b = same (suc n) (omega arith) i;
  c = same (suc (suc n)) (omega arith) i;
  d = same (suc (suc (suc n))) (omega arith) i;
  e = same (suc (suc (suc (suc n)))) (omega arith) i;
  f = same (suc (suc (suc (suc (suc n))))) (omega arith) i;
}

module _ (p m : ℕ) (hist : Taps) (buf : Array ℤ) (v : ℤ) (some_data : 0 < m) where
  abbrev last : ℕ
  last = p + 2 * (2 * m - 1)

  stream_same : (n : ℕ) → n < 2 * m + 4 → stream p hist (update buf last v) n ≡ stream p hist buf n
  stream_same zero lt = refl
  stream_same (suc zero) lt = refl
  stream_same (suc (suc zero)) lt = refl
  stream_same (suc (suc (suc zero))) lt = refl
  stream_same (suc (suc (suc (suc zero)))) lt = refl
  stream_same (suc (suc (suc (suc (suc n))))) lt = update_ne buf last (p + 2 * n) v (omega arith)

  window_same :
      (k : ℕ)
      → k < m
      → window (stream p hist (update buf last v)) (2 * k) ≡ window (stream p hist buf) (2 * k)
  window_same k lt =
      window_cong (stream p hist (update buf last v)) (stream p hist buf) (2 * k)
        (λ j le. stream_same j (omega arith))

  -- In a block of 2 * m values (`length` 4 * m, as the program uses), the last value reaches
  -- nothing: whatever it is, the outputs stored and the history kept are the same.
  pub fifth_order-skips_last :
      let r = fifth_order p (4 * m) hist buf in
      let r' = fifth_order p (4 * m) hist (update buf last v) in
      (r'.taps ≡ r.taps) × ((k : ℕ) → k < m → r'.buf (p + 2 * k) ≡ r.buf (p + 2 * k))
  fifth_order-skips_last = (
    before.archived ∙ window_same _ (omega arith) ∙ sym after.archived,
    λ k lt.
        before.stored k (omega arith)
        ∙ ap weigh (window_same k lt)
        ∙ sym (after.stored k (omega arith)),
  )
    where
      after : IsDecimated p (4 * m) hist buf (fifth_order p (4 * m) hist buf)
      after = fifth_order-IsDecimated p (4 * m) hist buf (omega arith)

      before :
          IsDecimated p
            (4 * m)
            hist
            (update buf last v)
            (fifth_order p (4 * m) hist (update buf last v))
      before = fifth_order-IsDecimated p (4 * m) hist (update buf last v) (omega arith)
