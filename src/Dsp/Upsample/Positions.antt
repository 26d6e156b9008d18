-- ===== src/Dsp/Upsample/Positions.antt =====
-- Where the interpolation reads: place j * len1 / len2 of the input for output j.
use native.Mathlib.Nat.{suc-mul}
use mathlib.Core.Path.{subst}
use native.Mathlib.Numerals.{add-one}
use rtl_ais_android.Base.{
  ℕ, zero, suc, ◌+◌, ◌-◌, ◌*◌, ◌≤◌, ◌<◌, ◌≡◌, ◌⊎◌, inl, inr, refl, sym, ◌∙◌, arith, ltb, leb,
  ltb→lt, ltb→le, ◌&&◌, true, Array, update, update_ne, Bool-cases, ◌==◌, ==_iff,
}
use rtl_ais_android.Base.Int.{ℤ}
use rtl_ais_android.Dsp.Upsample.{Walk, done, advance, walk_round, walk_loop, arbitrary_upsample}

module _ (len1 len2 : ℕ) where
  -- Between samples k and k + 1, `tick` parts of `len2` behind sample k: that is j * len1 parts from
  -- the start, or the last sample, where those parts lie behind it.
  pub record IsPlace (j k tick : ℕ) : Type 0 where
    pub within : k + 1 < len1
    pub part : tick ≤ len2
    pub at :
        (k * len2 + tick ≡ j * len1)
        ⊎ ((k + 2 ≡ len1) × (tick ≡ len2) × ((k + 1) * len2 < j * len1))

  module _ (j k tick : ℕ) (two : 2 ≤ len1) (up : len1 ≤ len2) (h : IsPlace j k tick) where
    -- The products that one more round brings.
    more_j : (j + 1) * len1 ≡ j * len1 + len1
    more_j = rw add-one (suc-mul j len1)

    more_k : (k + 1) * len2 ≡ k * len2 + len2
    more_k = rw add-one (suc-mul k len2)

    -- What `advance` gives, by cases.
    stays : tick + len1 ≤ len2 → advance len1 len2 (suc k) (tick + len1) ≡ (suc k, tick + len1)
    unfolding advance
    stays le = ground (arith, h.within)

    moves :
        len2 < tick + len1
        → k + 2 < len1
        → advance len1 len2 (suc k) (tick + len1) ≡ (suc (suc k), tick + len1 - len2)
    unfolding advance
    moves lt inside = ground arith

    stops :
        len2 < tick + len1 → k + 2 ≡ len1 → advance len1 len2 (suc k) (tick + len1) ≡ (suc k, len2)
    unfolding advance
    stops lt last = ground arith

    abbrev pub IsNext : ℕ × ℕ → Type 0
    IsNext (i', tick') = (n : ℕ) × (i' ≡ suc n) × IsPlace (j + 1) n tick'

    stays_next : tick + len1 ≤ len2 → IsPlace (j + 1) k (tick + len1)
    stays_next le = record { within = h.within; part = le; at = ground (arith, h.at, more_j) }

    moves_next : len2 < tick + len1 → k + 2 < len1 → IsPlace (j + 1) (suc k) (tick + len1 - len2)
    moves_next lt inside = record {
      within = omega arith;
      part = omega (arith, h.part);
      at = ground (arith, h.at, h.part, more_j, suc-mul k len2);
    }

    stops_next : len2 < tick + len1 → k + 2 ≡ len1 → IsPlace (j + 1) k len2
    stops_next lt last = record {
      within = h.within;
      part = omega arith;
      at = ground (arith, h.at, more_j, more_k);
    }

    IsNext-place : IsNext (advance len1 len2 (suc k) (tick + len1))
    IsNext-place = elim (Bool-cases (ltb len2 (tick + len1))) [
      | inr fits ↦
          let le = ltb→le len2 (tick + len1) fits in
          subst IsNext (sym (stays le)) (k, refl, stays_next le)
      | inl over ↦
          let lt = ltb→lt len2 (tick + len1) over in
          elim (Bool-cases (ltb (k + 2) len1)) [
            | inl inside ↦
                let more = ltb→lt (k + 2) len1 inside in
                subst IsNext (sym (moves lt more)) (suc k, refl, moves_next lt more)
            | inr last ↦
                let e : k + 2 ≡ len1 = omega (arith, h.within, ltb→le (k + 2) len1 last) in
                subst IsNext (sym (stops lt e)) (k, refl, stops_next lt e)
          ]
    ]

module _ (mix : ℕ → ℕ → ℤ → ℤ → ℤ) (buf1 : Array ℤ) (len1 len2 : ℕ) (start : Array ℤ) where
  -- The mixture of the samples on both sides of the place of output m.
  pub record IsOutput (m : ℕ) (value : ℤ) : Type 0 where
    pub k : ℕ
    pub tick : ℕ
    pub place : IsPlace len1 len2 m k tick
    pub mixed : value ≡ mix tick len2 (buf1 k) (buf1 (suc k))

  record Walking (w : Walk) : Type 0 where
    pub k : ℕ
    pub index : w.i ≡ suc k
    pub place : IsPlace len1 len2 w.j k w.tick
    pub below : w.j ≤ len2
    pub outputs : (m : ℕ) → m < w.j → IsOutput m (w.buf2 m)
    pub others : (m : ℕ) → w.j ≤ m → w.buf2 m ≡ start m

  module _ (two : 2 ≤ len1) (up : len1 ≤ len2) where
    module _ (w : Walk) (lt : w.j < len2) (h : Walking w) where
      abbrev value : ℤ
      value = mix w.tick len2 (buf1 (w.i - 1)) (buf1 w.i)

      this : IsOutput w.j value
      this = record {
        k = h.k;
        tick = w.tick;
        place = h.place;
        mixed = let before : suc h.k - 1 ≡ h.k = omega arith in rw (h.index, before) refl;
      }

      IsOutput-at : (m : ℕ) → m < w.j + 1 → IsOutput m (update w.buf2 w.j value m)
      IsOutput-at m le = elim (Bool-cases (w.j == m)) [
        | inl same ↦
            let e : w.j ≡ m = (==_iff w.j m).0 same in
            rw same (subst (λ n. IsOutput n value) e this)
        | inr other ↦ rw other (h.outputs m (ground (arith, other, le)))
      ]

      IsNext-at :
          IsNext len1 len2 w.j h.k w.tick two up h.place (advance len1 len2 w.i (w.tick + len1))
      IsNext-at =
          subst
            (λ i.
              IsNext len1 len2 w.j h.k w.tick two up h.place (advance len1 len2 i (w.tick + len1)))
            (sym h.index) (IsNext-place len1 len2 w.j h.k w.tick two up h.place)

      round-Walking : Walking (walk_round mix buf1 len1 len2 w)
      unfolding walk_round
      round-Walking = record {
        k = IsNext-at.0;
        index = IsNext-at.1;
        place = IsNext-at.2;
        below = omega arith;
        outputs = IsOutput-at;
        others = λ m le. update_ne w.buf2 w.j m value (omega arith) ∙ h.others m (omega arith);
      }

    round-j : (w : Walk) → (walk_round mix buf1 len1 len2 w).j ≡ w.j + 1
    unfolding walk_round
    round-j w = refl

    loop-outputs :
        (fuel : ℕ) (w : Walk)
        → len2 < w.j + fuel
        → Walking w
        → (out : Array ℤ) × (walk_loop mix buf1 len1 len2 fuel w ≡ done out)
          × ((m : ℕ) → m < len2 → IsOutput m (out m))
          × ((m : ℕ) → len2 ≤ m → out m ≡ start m)
    unfolding walk_loop
    loop-outputs zero w enough h = absurd (omega (arith, h.below))
    loop-outputs (suc fuel) w enough h = elim (Bool-cases (ltb w.j len2)) [
      | inr over ↦ (
        w.buf2,
        rw (over, walk_loop) refl,
        λ m lt. h.outputs m (omega (arith, ltb→le w.j len2 over)),
        λ m le. h.others m (omega (arith, h.below)),
      )
      | inl more ↦
          let lt = ltb→lt w.j len2 more in
          let reads : (leb 1 w.i && ltb w.i len1) ≡ true =
            ground (arith, h.index, h.place.within) in
          rw (more, reads, walk_loop)
            (loop-outputs fuel (walk_round mix buf1 len1 len2 w) (omega (arith, round-j w))
              (round-Walking w lt h))
    ]

    first : Walking (record { i = 1; j = 0; tick = 0; buf2 = start })
    first = record {
      k = 0;
      index = refl;
      place = record { within = omega arith; part = omega arith; at = inl (omega arith) };
      below = omega arith;
      outputs = λ m lt. absurd (omega arith);
      others = λ m le. refl;
    }

  -- From two or more samples to at least as many, the loop ends within one round more than the
  -- outputs, and never reads outside the samples. Output m is the mixture at its place, m * len1 parts
  -- of len2 behind the first sample, or at the last sample where that lies behind it; beyond the
  -- outputs nothing is stored.
  pub arbitrary_upsample-IsOutput :
      (fuel : ℕ)
      → 2 ≤ len1
      → len1 ≤ len2
      → len2 < fuel
      → (out : Array ℤ) × (arbitrary_upsample mix buf1 len1 len2 fuel start ≡ done out)
        × ((m : ℕ) → m < len2 → IsOutput m (out m))
        × ((m : ℕ) → len2 ≤ m → out m ≡ start m)
  unfolding arbitrary_upsample
  arbitrary_upsample-IsOutput fuel two up enough =
      loop-outputs two up fuel (record { i = 1; j = 0; tick = 0; buf2 = start }) (omega arith)
        (first two up)
