-- ===== src/Dsp/Rotate/Turns.antt =====
-- The rotations as multiplications by powers of the imaginary unit, and their inverse.
use rtl_ais_android.Base.{ℕ, zero, suc, ◌+◌, ◌-◌, ◌*◌, ◌%◌, ◌<◌, ◌≡◌, refl, arith}
use rtl_ais_android.Base.Int.{ℤ, pos, negsuc, neg, to_int16, ◌≤ℤ◌}
use rtl_ais_android.Dsp.Rotate.{Samples, neg16, rotate_90, rotate_m90}
use rtl_ais_android.Dsp.Rotate.Laws.{covered, rotate_90_lem, rotate_m90_lem}

-- Every value is an `int16_t`.
abbrev pub IsInt16 : ℤ → Type 0
IsInt16 z = (negsuc 32767 ≤ℤ z) × (z ≤ℤ pos 32767)

-- (a + bi) times the imaginary unit, and by its inverse, `n` times.
abbrev pub quarter_turns : ℕ → ℤ × ℤ → ℤ × ℤ
quarter_turns zero z = z
quarter_turns (suc n) z = let (a, b) = quarter_turns n z in (neg16 b, a)

abbrev pub quarter_turns_back : ℕ → ℤ × ℤ → ℤ × ℤ
quarter_turns_back zero z = z
quarter_turns_back (suc n) z = let (a, b) = quarter_turns_back n z in (b, neg16 a)

-- Negation of an int16_t undoes itself, at -32768 too.
pub neg16-neg16 : (z : ℤ) → IsInt16 z → neg16 (neg16 z) ≡ z
unfolding to_int16 neg
neg16-neg16 (pos n) h = ground arith
neg16-neg16 (negsuc n) h = ground arith

module _ (buf : Samples) (len k : ℕ) (int16 : IsInt16 (buf (2 * k)) × IsInt16 (buf (2 * k + 1)))
    (inside : 2 * k < covered len) where
  rotate_90-phase :
      (r : ℕ)
      → k % 4 ≡ r
      → (rotate_90 buf len (2 * k), rotate_90 buf len (2 * k + 1))
        ≡ quarter_turns r (buf (2 * k), buf (2 * k + 1))
  rotate_90-phase zero e =
      ground (arith, rotate_90_lem buf len (2 * k), rotate_90_lem buf len (2 * k + 1))
  rotate_90-phase (suc zero) e =
      ground (arith, rotate_90_lem buf len (2 * k), rotate_90_lem buf len (2 * k + 1))
  rotate_90-phase (suc (suc zero)) e =
      ground (arith, rotate_90_lem buf len (2 * k), rotate_90_lem buf len (2 * k + 1))
  rotate_90-phase (suc (suc (suc zero))) e = ground (
    arith,
    rotate_90_lem buf len (2 * k),
    rotate_90_lem buf len (2 * k + 1),
    neg16-neg16 (buf (2 * k + 1)) int16.1,
    neg16-neg16 (buf (2 * k)) int16.0,
  )
  rotate_90-phase (suc (suc (suc (suc r)))) e = absurd (omega arith)

  rotate_m90-phase :
      (r : ℕ)
      → k % 4 ≡ r
      → (rotate_m90 buf len (2 * k), rotate_m90 buf len (2 * k + 1))
        ≡ quarter_turns_back r (buf (2 * k), buf (2 * k + 1))
  rotate_m90-phase zero e =
      ground (arith, rotate_m90_lem buf len (2 * k), rotate_m90_lem buf len (2 * k + 1))
  rotate_m90-phase (suc zero) e =
      ground (arith, rotate_m90_lem buf len (2 * k), rotate_m90_lem buf len (2 * k + 1))
  rotate_m90-phase (suc (suc zero)) e =
      ground (arith, rotate_m90_lem buf len (2 * k), rotate_m90_lem buf len (2 * k + 1))
  rotate_m90-phase (suc (suc (suc zero))) e = ground (
    arith,
    rotate_m90_lem buf len (2 * k),
    rotate_m90_lem buf len (2 * k + 1),
    neg16-neg16 (buf (2 * k + 1)) int16.1,
    neg16-neg16 (buf (2 * k)) int16.0,
  )
  rotate_m90-phase (suc (suc (suc (suc r)))) e = absurd (omega arith)

  -- `rotate_90` multiplies sample k, if it is of two int16 values, by the k-th power of the imaginary
  -- unit, k counted modulo 4, for every sample of the groups of eight values that `len` reaches.
  pub rotate_90_turns :
      (rotate_90 buf len (2 * k), rotate_90 buf len (2 * k + 1))
      ≡ quarter_turns (k % 4) (buf (2 * k), buf (2 * k + 1))
  rotate_90_turns = rotate_90-phase (k % 4) refl

  -- `rotate_m90` divides sample k, if it is of two int16 values, by the k-th power of the imaginary
  -- unit, k counted modulo 4, for every sample of the groups of eight values that `len` reaches.
  pub rotate_m90_turns :
      (rotate_m90 buf len (2 * k), rotate_m90 buf len (2 * k + 1))
      ≡ quarter_turns_back (k % 4) (buf (2 * k), buf (2 * k + 1))
  rotate_m90_turns = rotate_m90-phase (k % 4) refl

-- On int16 samples, `rotate_m90` undoes `rotate_90` at the same length, at every index.
pub rotate_m90-rotate_90 :
    (buf : Samples) (len j : ℕ)
    → ((n : ℕ) → IsInt16 (buf n))
    → rotate_m90 (rotate_90 buf len) len j ≡ buf j
rotate_m90-rotate_90 buf len j int16 = ground (
  arith,
  rotate_m90_lem (rotate_90 buf len) len j,
  rotate_90_lem buf len j,
  rotate_90_lem buf len (j + 1),
  rotate_90_lem buf len (j - 1),
  neg16-neg16 (buf j) (int16 j),
)
