-- ===== src/Tuning/Tests.antt =====
-- The theorems on the supported values, the search for a device, and its calibration, at examples.
use Prim.{tt}
use rtl_ais_android.Base.{◌≡◌, refl, arith, [], ◌∷◌}
use rtl_ais_android.Base.Int.{ℤ, pos, negsuc}
use rtl_ais_android.Tuning.{Device}
use rtl_ais_android.Base.{List, false, Bool, ◌++◌, ◌+◌, ◌-◌, ◌*◌}
use rtl_ais_android.Tuning.Devices.{Text, is_number, verbose_device_search}
use rtl_ais_android.Tuning.Devices.Matches.{Found, verbose_device_search-Found}
use rtl_ais_android.Tuning.Eeprom.{verbose_ppm_eeprom}
use rtl_ais_android.Tuning.Eeprom.RoundTrip.{calibrated, verbose_ppm_eeprom-calibrated}

abbrev tuner : Device
tuner = record {
  gains = negsuc 9 ∷ (pos 15 ∷ (pos 40 ∷ []));
  bandwidths = pos 300000 ∷ (pos 600000 ∷ []);
  result = λ call. pos 0;
}

-- No text of the example is a number.
abbrev no_number : Text → ℤ × Bool
no_number t = (pos 0, false)

abbrev ais : Text
ais = b'a' ∷ (b'i' ∷ (b's' ∷ []))

abbrev serials : List Text
serials = (b'0' ∷ ais) ∷ ((b'1' ∷ []) ∷ ((ais ++ (b'2' ∷ [])) ∷ (ais ∷ [])))

abbrev digits : Text
digits = b'4' ∷ (b'2' ∷ [])

text_ais : is_number no_number serials ais ≡ false
unfolding is_number
text_ais = refl

verbose_device_search-Found_example :
    Found serials ais (verbose_device_search no_number serials ais)
verbose_device_search-Found_example = verbose_device_search-Found no_number serials ais text_ais

-- The value of two digits.
abbrev two_digits : Text → ℤ
two_digits (a ∷ (b ∷ [])) = pos ((a - b'0') * 10 + (b - b'0'))
two_digits t = pos 0

verbose_ppm_eeprom-calibrated_example :
    verbose_ppm_eeprom two_digits (pos 0) (calibrated ais digits) (pos 7) ≡ (pos 0, pos 42)
verbose_ppm_eeprom-calibrated_example =
    verbose_ppm_eeprom-calibrated ais digits ((λ e. cc), ((λ e. cc), tt)) two_digits (pos 7)
      (omega arith) (omega arith)
