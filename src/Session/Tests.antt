-- ===== src/Session/Tests.antt =====
-- The theorems on a run.
use rtl_ais_android.Base.{◌≡◌, ◌≤◌, refl, arith, false, true}
use rtl_ais_android.Base.{[], ◌∷◌, none}
use rtl_ais_android.Base.Int.{pos}
use Prim.{tt}
use rtl_ais_android.Base.{some, ◌-◌, ◌^◌}
use rtl_ais_android.Command.{as_uint}
use rtl_ais_android.Session.Main.Restart.{readings, process-readings}
use rtl_ais_android.Session.Options.{Readers, Options, options, option, reset}
use rtl_ais_android.Session.Main.{Calls, Launch, process, rtl_ais_main}
use rtl_ais_android.Session.Main.Ends.{Ends, rtl_ais_main-Ends}
use rtl_ais_android.Session.Rates.Tests.{floor, floor_log, ais_plan}
use rtl_ais_android.Session.Rates.{planned, plan, plan_rates}
use rtl_ais_android.Base.{◌⊎◌, Bool}
use rtl_ais_android.Base.Int.{ℤ, negsuc}
use rtl_ais_android.Opening.{rtlsdr_open2}
use rtl_ais_android.Opening.Releases.{Succeeded}
use rtl_ais_android.Opening.Wrapped.{Answers}
use rtl_ais_android.Opening.Tests.{bus}
use rtl_ais_android.Tuning.Devices.{verbose_device_search}
use rtl_ais_android.Session.Options.{Text, auto_gain, defaults}
use rtl_ais_android.Session.Main.{start_output, set_isrunning, open_device, tuned}
use rtl_ais_android.Session.Main.Opened.{
  NotOpened, linked, searching, rtl_ais_main-device, rtl_ais_main-wrong_device,
}

abbrev readers : Readers
readers = record {
  atofs = λ t. 24000;
  tenths = λ t. pos 100;
  atoi = λ t. pos 0;
  verbose_device_search = λ t. pos 0;
}

abbrev reports : Calls
reports = record {
  fd_valid = true;
  open_result = pos 0;
  dev_set = true;
  file_opens = false;
  decoder_inits = true;
  ppm_eeprom = pos 0;
  device = record {
    gains = pos 15 ∷ (pos 40 ∷ []);
    bandwidths = pos 300000 ∷ [];
    result = λ call. pos 0;
  };
  rounds = record { stop = false; client = true } ∷ [];
  stopped = false;
}

abbrev globals : Options
globals = record {
  left_freq = 0;
  right_freq = 0;
  sample_rate = 0;
  output_rate = 0;
  dev_index = pos 0;
  dev_given = false;
  gain = pos 0;
  ppm_error = pos 0;
  custom_ppm = false;
  ais_port = none;
  bandwidth = pos 0;
  ais_host = none;
  seconds_for_decoder_stats = pos 0;
  edge = false;
  oversample = false;
  dc_filter = true;
  rtl_agc = false;
  use_internal_aisdecoder = true;
  debug_nmea = false;
  show_levels = false;
  use_autotune = false;
  without_tcp_worker = false;
}

rtl_ais_main-Ends_example :
    Ends (rtl_ais_main reports false floor readers false ((b's', []) ∷ ((b'R', []) ∷ [])) globals)
rtl_ais_main-Ends_example =
    rtl_ais_main-Ends reports false floor readers false ((b's', []) ∷ ((b'R', []) ∷ [])) globals

serves :
    (o : Options)
    → options readers ((b's', []) ∷ []) (reset globals) ≡ some o
    → o.without_tcp_worker ≡ false
unfolding options option reset
serves o e = ground arith

-- A client comes, samples are read until it leaves; and a second call with another client.
abbrev call : Launch
call = record {
  asked = false;
  calls = reports;
  log = floor;
  readers = readers;
  usbfd = false;
  args = (b's', []) ∷ [];
  globals = globals;
}

-- The first of them does read.
call_reads : readings (process (some false) (call ∷ [])) ≡ 1
unfolding process options option plan floor_log
call_reads = refl

process-readings_example : readings (process (some false) (call ∷ (call ∷ []))) ≤ 1
process-readings_example =
    process-readings (call ∷ (call ∷ [])) false ((λ o e. serves o e), ((λ o e. serves o e), tt))

-- No option, so the index is 0.
rtl_ais_main-device_example :
    NotOpened
      (rtl_ais_main (linked bus (reset globals) reports) false floor readers true [] globals)
    ⊎ Succeeded bus 0 (rtlsdr_open2 bus 0)
unfolding options reset
rtl_ais_main-device_example =
    rtl_ais_main-device bus reports floor readers [] globals (reset globals) 0 refl refl
      (omega arith)

-- A name that is no number.
abbrev no_number : Text → ℤ × Bool
no_number t = (pos 0, false)

abbrev lost : Options
lost = record globals {
  left_freq = 161975000;
  right_freq = 162025000;
  sample_rate = 24000;
  output_rate = 48000;
  dev_index = negsuc 0;
  dev_given = true;
  gain = auto_gain;
  ais_port = some [];
  bandwidth = pos 300000;
  ais_host = some [];
}

is_lost :
    options (searching no_number [] readers) ((b'd', b'x' ∷ []) ∷ []) (reset globals) ≡ some lost
unfolding options option reset verbose_device_search
is_lost = refl

well : Answers bus
well = record { malloc = refl; init2 = refl; context = refl; open2 = refl; claim = refl }

lost_planned : plan floor (tuned reports (defaults lost)) ≡ planned ais_plan
unfolding plan plan_rates floor_log defaults
lost_planned = refl

rtl_ais_main-wrong_device_example :
    (as_uint lost.dev_index ≡ 2 ^ 32 - 1)
    × ((rtlsdr_open2 bus (as_uint lost.dev_index)).device ≡ some 0)
    × (rtl_ais_main
          (linked bus lost reports)
          false
          floor
          (searching no_number [] readers)
          true
          ((b'd', b'x' ∷ []) ∷ [])
          globals
        ≡ start_output
            (linked bus lost reports)
            false
            (defaults lost)
            ais_plan
            (set_isrunning true ∷ (open_device ∷ [])))
rtl_ais_main-wrong_device_example =
    rtl_ais_main-wrong_device bus false (true ∷ []) reports floor ais_plan no_number readers
      ((b'd', b'x' ∷ []) ∷ []) globals lost well refl (omega arith) refl is_lost refl lost_planned
