-- ===== src/Dsp/FifthOrder/Window.antt =====
-- What the loop of `fifth_order` computes: a window over the history and the block that moves by
-- two values for each value stored.
use rtl_ais_android.Base.{
  ℕ, zero, suc, ◌+◌, ◌-◌, ◌*◌, ◌/◌, ◌≤◌, ◌<◌, ◌≡◌, ◌≢◌, refl, arith, Array, update, update_ne, sym,
  ◌∙◌, ◌⊎◌, inl, inr,
}
use rtl_ais_android.Base.Int.{ℤ}
use rtl_ais_android.Base.Loop.{for_loop_inv}
use rtl_ais_android.Dsp.FifthOrder.{Taps, weigh, shift, Pass, round, first_taps, fifth_order}

-- The input of a call as one stream: the last five values of the history, then every second value
-- of the block from `p` on.
abbrev pub stream : ℕ → Taps → Array ℤ → ℕ → ℤ
stream p hist buf zero = hist.b
stream p hist buf (suc zero) = hist.c
stream p hist buf (suc (suc zero)) = hist.d
stream p hist buf (suc (suc (suc zero))) = hist.e
stream p hist buf (suc (suc (suc (suc zero)))) = hist.f
stream p hist buf (suc (suc (suc (suc (suc n))))) = buf (p + 2 * n)

abbrev pub window : (ℕ → ℤ) → ℕ → Taps
window s n = record {
  a = s n;
  b = s (suc n);
  c = s (suc (suc n));
  d = s (suc (suc (suc n)));
  e = s (suc (suc (suc (suc n))));
  f = s (suc (suc (suc (suc (suc n)))));
}

module _ (p length : ℕ) (hist : Taps) (buf : Array ℤ) where
  abbrev pub output : ℕ → ℤ
  output k = weigh (window (stream p hist buf) (2 * k))

  -- Before the round at i = 4 * (k + 1): outputs 0 to k are stored, the rest is untouched.
  record Decimated (i : ℕ) (s : Pass) : Type 0 where
    pub k : ℕ
    pub at : i ≡ 4 * k + 4
    pub reached : 4 * k < length ⊎ k ≡ 0
    pub stored : (j : ℕ) → j ≤ k → s.buf (p + 2 * j) ≡ output j
    pub untouched : (x : ℕ) → ((j : ℕ) → j ≤ k → x ≢ p + 2 * j) → s.buf x ≡ buf x
    pub taps : s.taps ≡ window (stream p hist buf) (2 * k)

  module _ (i : ℕ) (s : Pass) (h : Decimated i s) where
    -- The values that the round reads are still those of the block.
    reads : (x : ℕ) → 4 * h.k + 2 ≤ x → s.buf (p + x) ≡ buf (p + x)
    reads x le = h.untouched (p + x) (λ j below. omega arith)

    next_taps :
        shift s.taps (s.buf (p + i - 2)) (s.buf (p + i)) ≡ window (stream p hist buf) (2 * suc h.k)
    next_taps =
        let at : i ≡ 4 * h.k + 4 = h.at in
        let even : 2 * suc h.k ≡ suc (suc (2 * h.k)) = omega arith in
        let older : p + i - 2 ≡ p + 2 * suc (2 * h.k) = omega arith in
        let newer : p + i ≡ p + 2 * suc (suc (2 * h.k)) = omega arith in
        rw (
          even,
          h.taps,
          older,
          newer,
          reads (2 * suc (2 * h.k)) (omega arith),
          reads (2 * suc (suc (2 * h.k))) (omega arith),
        )

    position : p + i / 2 ≡ p + 2 * suc h.k
    position = omega (arith, h.at)

  round-Decimated :
      (i : ℕ) (s : Pass) → i < length → Decimated i s → Decimated (i + 4) (round p i s)
  unfolding round
  round-Decimated i s lt h = record {
    k = suc h.k;
    at = omega (arith, h.at);
    reached = inl (omega (arith, h.at));
    stored = λ j le. rw (next_taps i s h, position i s h) (store j le);
    untouched = λ x away. rw (position i s h) (
        update_ne s.buf (p + 2 * suc h.k) x _ (λ e. away (suc h.k) (omega arith) (sym e))
        ∙ h.untouched x (λ j le. away j (omega arith)));
    taps = next_taps i s h;
  }
    where
      store :
          (j : ℕ)
          → j ≤ suc h.k
          → update s.buf (p + 2 * suc h.k) (output (suc h.k)) (p + 2 * j) ≡ output j
      store j le = ground (arith, h.stored j)

  first : Pass
  first = let t = first_taps p hist buf in record { taps = t; buf = update buf p (weigh t) }

  first-Decimated : Decimated 4 first
  unfolding first
  first-Decimated = record {
    k = 0;
    at = omega arith;
    reached = inr refl;
    stored = λ j le. ground arith;
    untouched = λ x away. update_ne buf p x _ (λ e. away 0 (omega arith) (omega (arith, e)));
    taps = ground arith;
  }

  -- What a call leaves in `r`.
  pub record IsDecimated (r : Pass) : Type 0 where
    pub stored : (k : ℕ) → 4 * k < length → r.buf (p + 2 * k) ≡ output k
    pub untouched : (x : ℕ) → ((k : ℕ) → 4 * k < length → x ≢ p + 2 * k) → r.buf x ≡ buf x
    pub archived : r.taps ≡ window (stream p hist buf) (2 * ((length - 1) / 4))

  -- For a block that is not empty, `fifth_order` stores at every second place of the first half of
  -- the block the weighed windows of the unchanged input (history and block), each moved by two
  -- values against the one before; it changes no other place, and keeps the last window as history.
  pub fifth_order-IsDecimated : 0 < length → IsDecimated (fifth_order p length hist buf)
  unfolding fifth_order first
  fifth_order-IsDecimated some_data =
      let (i, past, h) =
        for_loop_inv Decimated 4 length (round p) (omega arith) round-Decimated 4 first
          first-Decimated in
      let last : (length - 1) / 4 ≡ h.k = omega (arith, h.at, h.reached) in
      record {
        stored = λ k lt. h.stored k (omega (arith, h.at, h.reached));
        untouched = λ x away. h.untouched x (λ j le. away j (omega (arith, h.at, h.reached)));
        archived = rw last h.taps;
      }
