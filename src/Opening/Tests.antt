-- ===== src/Opening/Tests.antt =====
-- The theorem on opening at a bus with one known device behind another.
use rtl_ais_android.Base.{arith, ◌⊎◌, true, false, [], ◌∷◌, ◌≡◌, refl}
use rtl_ais_android.Base.Int.{pos}
use rtl_ais_android.Opening.{r820t, Usb, rtlsdr_open2, search_device}
use rtl_ais_android.Opening.Releases.{Failed, Succeeded, rtlsdr_open2-Releases}

abbrev pub bus : Usb
bus = record {
  malloc = true;
  init2 = pos 0;
  context = true;
  devices = false ∷ (true ∷ []);
  open2 = pos 0;
  claim = pos 0;
  write_fails = false;
  answers = λ tuner. elim tuner [ r820t ↦ true | _ ↦ false ];
}

opens : (rtlsdr_open2 bus 0).value ≡ pos 0
unfolding rtlsdr_open2 search_device
opens = refl

rtlsdr_open2-Releases_example : Failed (rtlsdr_open2 bus 0) ⊎ Succeeded bus 0 (rtlsdr_open2 bus 0)
rtlsdr_open2-Releases_example = rtlsdr_open2-Releases bus 0 (omega arith)
