-- ===== src/Dsp/Downsample/Decimation/Calls.antt =====
-- The two calls over one block, the I values and then the Q values, on two signals.
use rtl_ais_android.Base.{
  ℕ, zero, suc, ◌+◌, ◌-◌, ◌*◌, ◌/◌, ◌≤◌, ◌<◌, ◌≡◌, refl, ap, ◌∙◌, arith, Array, List,
}
use rtl_ais_android.Base.Int.{ℤ}
use rtl_ais_android.Dsp.FifthOrder.{Taps, weigh, fifth_order}
use rtl_ais_android.Dsp.FifthOrder.Window as Five
use rtl_ais_android.Dsp.FifthOrder.Window.{fifth_order-IsDecimated}
use rtl_ais_android.Dsp.GenericFir.{History, filtered, generic_fir}
use rtl_ais_android.Dsp.GenericFir.Window as Nine
use rtl_ais_android.Dsp.GenericFir.Window.{generic_fir-IsFiltered}
use rtl_ais_android.Dsp.Downsample.Level.{
  other_half, other_half_q, fir_other_half, fir_other_half_q,
}
use rtl_ais_android.Dsp.Downsample.Decimation.{after_five, after_nine}

-- The first `n` values of the half from `p` on.
abbrev pub Carries : ℕ → ℕ → (ℕ → ℤ) → Array ℤ → Type 0
Carries p n x buf = (k : ℕ) → k < n → buf (p + 2 * k) ≡ x k

module _ (p n : ℕ) (hist : Taps) (x : ℕ → ℤ) (buf : Array ℤ) (holds : Carries p n x buf) where
  stream_five : (m : ℕ) → m < n + 5 → Five.stream p hist buf m ≡ after_five hist x m
  stream_five zero lt = refl
  stream_five (suc zero) lt = refl
  stream_five (suc (suc zero)) lt = refl
  stream_five (suc (suc (suc zero))) lt = refl
  stream_five (suc (suc (suc (suc zero)))) lt = refl
  stream_five (suc (suc (suc (suc (suc m))))) lt = holds m (omega arith)

  window_five :
      (m : ℕ) → m < n → Five.window (Five.stream p hist buf) m ≡ Five.window (after_five hist x) m
  window_five m lt =
      rw
        (
          stream_five m (omega arith),
          stream_five (suc m) (omega arith),
          stream_five (suc (suc m)) (omega arith),
          stream_five (suc (suc (suc m))) (omega arith),
          stream_five (suc (suc (suc (suc m)))) (omega arith),
          stream_five (suc (suc (suc (suc (suc m))))) (omega arith),
        )
        refl

module _ (p n : ℕ) (hist : History) (x : ℕ → ℤ) (buf : Array ℤ) (holds : Carries p n x buf) where
  stream_nine : (m : ℕ) → m < n + 9 → Nine.stream p hist buf m ≡ after_nine hist x m
  stream_nine zero lt = refl
  stream_nine (suc zero) lt = refl
  stream_nine (suc (suc zero)) lt = refl
  stream_nine (suc (suc (suc zero))) lt = refl
  stream_nine (suc (suc (suc (suc zero)))) lt = refl
  stream_nine (suc (suc (suc (suc (suc zero))))) lt = refl
  stream_nine (suc (suc (suc (suc (suc (suc zero)))))) lt = refl
  stream_nine (suc (suc (suc (suc (suc (suc (suc zero))))))) lt = refl
  stream_nine (suc (suc (suc (suc (suc (suc (suc (suc zero)))))))) lt = refl
  stream_nine (suc (suc (suc (suc (suc (suc (suc (suc (suc m))))))))) lt = holds m (omega arith)

  window_nine :
      (m : ℕ) → m ≤ n → Nine.window (Nine.stream p hist buf) m ≡ Nine.window (after_nine hist x) m
  window_nine m le =
      rw
        (
          stream_nine m (omega arith),
          stream_nine (suc m) (omega arith),
          stream_nine (suc (suc m)) (omega arith),
          stream_nine (suc (suc (suc m))) (omega arith),
          stream_nine (suc (suc (suc (suc m)))) (omega arith),
          stream_nine (suc (suc (suc (suc (suc m))))) (omega arith),
          stream_nine (suc (suc (suc (suc (suc (suc m)))))) (omega arith),
          stream_nine (suc (suc (suc (suc (suc (suc (suc m))))))) (omega arith),
          stream_nine (suc (suc (suc (suc (suc (suc (suc (suc m)))))))) (omega arith),
        )
        refl

-- What a pass makes of `2 * t` values of a signal.
abbrev pub halved : Taps → (ℕ → ℤ) → ℕ → ℤ
halved hist x k = weigh (Five.window (after_five hist x) (2 * k))

module _ (p t length : ℕ) (hist : Taps) (x : ℕ → ℤ) (buf : Array ℤ) (some_data : 0 < t)
    (half : p ≤ 1) (whole : p + length ≡ 2 * (2 * t)) (holds : Carries p (2 * t) x buf) where
  one_pass :
      let r = fifth_order p length hist buf in
      Carries p t (halved hist x) r.buf × (r.taps ≡ Five.window (after_five hist x) (2 * (t - 1)))
  one_pass =
      let done =
        fifth_order-IsDecimated p length hist buf (omega (arith, some_data, half, whole)) in
      let last : (length - 1) / 4 ≡ t - 1 = omega (arith, some_data, half, whole) in
      (
        λ k lt.
            done.stored k (omega (arith, half, whole, lt))
            ∙ ap weigh (window_five p (2 * t) hist x buf holds (2 * k) (omega (arith, lt))),
        done.archived
            ∙ ap (λ j. Five.window (Five.stream p hist buf) (2 * j)) last
            ∙ window_five p (2 * t) hist x buf holds (2 * (t - 1)) (omega (arith, some_data)),
      )

module _ (p n length : ℕ) (fir : List ℤ) (hist : History) (x : ℕ → ℤ) (buf : Array ℤ)
    (some_data : 0 < n) (half : p ≤ 1) (whole : p + length ≡ 2 * n)
    (holds : Carries p n x buf) where
  one_fir :
      let r = generic_fir p length fir hist buf in
      Carries p n (λ k. filtered fir (Nine.window (after_nine hist x) k)) r.buf
      × (r.hist ≡ Nine.window (after_nine hist x) n)
  one_fir =
      let done = generic_fir-IsFiltered p length fir hist buf in
      let last : (length + 1) / 2 ≡ n = omega (arith, some_data, half, whole) in
      (
        λ k lt.
            done.stored k (omega (arith, half, whole, lt))
            ∙ ap (filtered fir) (window_nine p n hist x buf holds k (omega (arith, lt))),
        done.kept
            ∙ ap (λ j. Nine.window (Nine.stream p hist buf) j) last
            ∙ window_nine p n hist x buf holds n (omega arith),
      )

-- Both calls of a pass: each half is decimated as if it were alone.
pub both_passes :
    (t : ℕ) (hi hq : Taps) (x y : ℕ → ℤ) (buf : Array ℤ)
    → 0 < t
    → Carries 0 (2 * t) x buf
    → Carries 1 (2 * t) y buf
    → let r = fifth_order 0 (2 * (2 * t)) hi buf in
      let r' = fifth_order 1 (2 * (2 * t) - 1) hq r.buf in
      Carries 0 t (halved hi x) r'.buf
      × Carries 1 t (halved hq y) r'.buf
      × (r.taps ≡ Five.window (after_five hi x) (2 * (t - 1)))
      × (r'.taps ≡ Five.window (after_five hq y) (2 * (t - 1)))
both_passes t hi hq x y buf some_data xs ys =
    let n = 2 * (2 * t) in
    let r = fifth_order 0 n hi buf in
    let (i, taps_i) = one_pass 0 t n hi x buf some_data (omega arith) (omega arith) xs in
    let (q, taps_q) =
      one_pass 1 t (n - 1) hq y r.buf some_data (omega arith) (omega (arith, some_data))
        (λ k lt. other_half n k hi buf (omega (arith, some_data)) ∙ ys k lt) in
    (λ k lt. other_half_q (n - 1) k hq r.buf (omega (arith, some_data)) ∙ i k lt, q, taps_i, taps_q)

pub both_firs :
    (n : ℕ) (fir : List ℤ) (hi hq : History) (x y : ℕ → ℤ) (buf : Array ℤ)
    → 0 < n
    → Carries 0 n x buf
    → Carries 1 n y buf
    → let r = generic_fir 0 (2 * n) fir hi buf in
      let r' = generic_fir 1 (2 * n - 1) fir hq r.buf in
      Carries 0 n (λ k. filtered fir (Nine.window (after_nine hi x) k)) r'.buf
      × Carries 1 n (λ k. filtered fir (Nine.window (after_nine hq y) k)) r'.buf
      × (r.hist ≡ Nine.window (after_nine hi x) n)
      × (r'.hist ≡ Nine.window (after_nine hq y) n)
both_firs n fir hi hq x y buf some_data xs ys =
    let r = generic_fir 0 (2 * n) fir hi buf in
    let (i, hist_i) = one_fir 0 n (2 * n) fir hi x buf some_data (omega arith) (omega arith) xs in
    let (q, hist_q) =
      one_fir 1 n (2 * n - 1) fir hq y r.buf some_data (omega arith) (omega (arith, some_data))
        (λ k lt. fir_other_half (2 * n) k fir hi buf ∙ ys k lt) in
    (λ k lt. fir_other_half_q (2 * n - 1) k fir hq r.buf ∙ i k lt, q, hist_i, hist_q)
