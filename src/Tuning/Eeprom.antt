-- ===== src/Tuning/Eeprom.antt =====
-- `verbose_ppm_eeprom` of app/src/main/jni/rtl-sdr/src/convenience/convenience.c: the frequency
-- correction that a serial such as "name -23p" carries.
pub mod RoundTrip
use mathlib.Core.Path.{subst}
use mathlib.Core.List.{append_assoc}
use rtl_ais_android.Base.{
  ℕ, zero, suc, ◌+◌, ◌-◌, ◌≤◌, ◌<◌, ◌≡◌, ◌≢◌, refl, sym, ap, ◌∙◌, arith, leb, ◌==◌, ==_iff, not,
  Bool, true, false, List, [], ◌∷◌, ◌++◌, length, length-append, get_or, take, drop, Option, none,
  some, if◌then◌else◌,
}
use rtl_ais_android.Base.Int.{ℤ, pos, negsuc, is_zero}
use rtl_ais_android.Tuning.Devices.{Text}

-- The loop from `i` down to 0: the first place with a space. The argument is i + 1.
unfoldable pub space_from : Text → ℕ → Option ℕ
space_from serial zero = none
space_from serial (suc i) =
    let rest = space_from serial i in if get_or serial i 0 == b' ' then some i else rest

-- The characters from `i + 1` on, up to the 'p' that is cut off.
unfoldable pub number_after : Text → ℕ → Text
number_after serial i = take (length serial - 1 - (i + 1)) (drop (i + 1) serial)

-- The status and the correction after the call; `r` is what reading the strings returns.
module _ (atoi : Text → ℤ) where
  unfoldable pub verbose_ppm_eeprom : ℤ → Text → ℤ → ℤ × ℤ
  unfolding space_from number_after
  verbose_ppm_eeprom r serial ppm_error =
      let len = length serial in
      if not (is_zero r)
      then (r, ppm_error)
      else if leb len 3
      then (negsuc 0, ppm_error)
      else if not (get_or serial (len - 1) 0 == b'p')
      then (negsuc 0, ppm_error)
      else (elim (space_from serial (len - 2)) [
        | none ↦ (negsuc 0, ppm_error)
        | some i ↦ (pos 0, atoi (number_after serial i))
      ])
