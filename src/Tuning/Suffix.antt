-- ===== src/Tuning/Suffix.antt =====
-- `atofs`, `atoft` and `atofp` of app/src/main/jni/rtl-sdr/src/convenience/convenience.c: numbers
-- with a suffix for thousands, for time and for per cent.
pub mod Letters
use rtl_ais_android.Base.{
  ℕ, suc, ◌==◌, ◌||◌, Bool, true, false, List, [], ◌∷◌, Option, none, some, if◌then◌else◌,
}
use rtl_ais_android.Tuning.Devices.{Text}

-- The numbers in `double`: the one that a text begins with, its product by a whole number, which
-- `suff` is exactly, and its product by 0.01.
pub record Numbers : Type 1 where
  pub Double : Type 0
  pub atof : Text → Double
  pub times : ℕ → Double → Double
  pub hundredth : Double → Double

-- A text in two parts: all but the last character, and that one. An empty text has no last one: the
-- code then reads and writes the byte before it, for which the result is `none`.
pub split_last : Text → Option (Text × ℕ)
split_last [] = none
split_last (c ∷ []) = some ([], c)
split_last (c ∷ (d ∷ s)) = elim (split_last (d ∷ s)) [
  | none ↦ none
  | some (front, last) ↦ some (c ∷ front, last)
]

abbrev is_letter : ℕ → ℕ → ℕ → Bool
is_letter small big c = (c == small) || (c == big)

-- The factors that the `switch` collects, each case falling through into the next.
pub thousands : ℕ → Option ℕ
thousands c =
    if is_letter b'g' b'G' c
    then some 1000000000
    else if is_letter b'm' b'M' c
    then some 1000000
    else if is_letter b'k' b'K' c
    then some 1000
    else none

pub seconds : ℕ → Option ℕ
seconds c =
    if is_letter b'h' b'H' c
    then some 3600
    else if is_letter b'm' b'M' c
    then some 60
    else if is_letter b's' b'S' c
    then some 1
    else none

module _ (n : Numbers) where
  open n use {Double, atof, times, hundredth}

  -- The number before the last character, times the factor; or the whole text where the character
  -- is no suffix.
  abbrev pub with_factor : Text → Text → Option ℕ → Double
  with_factor s front (some k) = times k (atof front)
  with_factor s front none = atof s

  -- The last character is put back on every path, so the text does not change.
  pub scaled_parts : (ℕ → Option ℕ) → Text → Option (Text × ℕ) → Option Double
  scaled_parts factor s none = none
  scaled_parts factor s (some (front, last)) = some (with_factor s front (factor last))

  pub scaled : (ℕ → Option ℕ) → Text → Option Double
  unfolding split_last scaled_parts
  scaled factor s = scaled_parts factor s (split_last s)

  unfoldable pub atofs : Text → Option Double
  unfolding scaled thousands
  atofs s = scaled thousands s

  unfoldable pub atoft : Text → Option Double
  unfolding scaled seconds
  atoft s = scaled seconds s

  unfoldable pub atofp : Text → Option Double
  unfolding split_last
  atofp s = elim (split_last s) [
    | none ↦ none
    | some (front, last) ↦ if last == b'%' then some (hundredth (atof front)) else some (atof s)
  ]
