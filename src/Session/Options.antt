-- ===== src/Session/Options.antt =====
-- The options of `rtl_ais_main`: its local variables, and the loop over `getopt`.
use rtl_ais_android.Base.{
  ℕ, ◌==◌, not, Bool, true, false, ltb, length, take, List, [], ◌∷◌, Option, none, some,
  if◌then◌else◌,
}
use rtl_ais_android.Base.Int.{ℤ, pos, negsuc}
use mathlib.Core.Option

abbrev pub Text : Type 0
Text = List ℕ

-- The functions that read a number: `(int)atofs`, `(int)(atof * 10)` and `atoi`, and the search for
-- a device. Frequencies and rates are not negative.
pub record Readers : Type 0 where
  pub atofs : Text → ℕ
  pub tenths : Text → ℤ
  pub atoi : Text → ℤ
  pub verbose_device_search : Text → ℤ

-- The variables that the options set. `oversample`, `dc_filter`, `use_internal_aisdecoder` and
-- `seconds_for_decoder_stats` are global: they keep their values from one run to the next.
pub record Options : Type 0 where
  pub left_freq : ℕ
  pub right_freq : ℕ
  pub sample_rate : ℕ
  pub output_rate : ℕ
  pub dev_index : ℤ
  pub dev_given : Bool
  pub gain : ℤ
  pub ppm_error : ℤ
  pub custom_ppm : Bool
  pub ais_port : Option Text
  pub bandwidth : ℤ
  pub ais_host : Option Text
  pub seconds_for_decoder_stats : ℤ
  pub edge : Bool
  pub oversample : Bool
  pub dc_filter : Bool
  pub rtl_agc : Bool
  pub use_internal_aisdecoder : Bool
  pub debug_nmea : Bool
  pub show_levels : Bool
  pub use_autotune : Bool
  pub without_tcp_worker : Bool

-- AUTO_GAIN
abbrev pub auto_gain : ℤ
auto_gain = negsuc 99

-- The local variables at the start of a run; the globals are those of `o`.
unfoldable pub reset : Options → Options
reset o = record o {
  left_freq = 161975000;
  right_freq = 162025000;
  sample_rate = 24000;
  output_rate = 48000;
  dev_index = pos 0;
  dev_given = false;
  gain = auto_gain;
  ppm_error = pos 0;
  custom_ppm = false;
  ais_port = some [];
  bandwidth = pos 300000;
  ais_host = some [];
  edge = false;
  rtl_agc = false;
  debug_nmea = false;
  show_levels = false;
  use_autotune = false;
  without_tcp_worker = false;
}

-- Up to the first newline.
pub line : Text → Text
line [] = []
line (c ∷ cs) = if c == b'\n' then [] else c ∷ line cs

-- What is before the first newline, where there is one.
pub before_newline : Text → Option Text
before_newline [] = none
before_newline (c ∷ cs) =
    let rest = before_newline cs in if c == b'\n' then some [] else Option.map (λ t. c ∷ t) rest

-- `strncpy` into 50 bytes and the cut at the newline; `none` is a text without a terminator. (A newline
-- that `strchr` finds beyond the 50 bytes is not modelled.)
unfoldable pub copied : Text → Option Text
unfolding line before_newline
copied optarg =
    if ltb (length optarg) 50 then some (line optarg) else before_newline (take 50 optarg)

-- "127.0.0.1"
abbrev local_host : Text
local_host = b'1' ∷ (b'2' ∷ (b'7' ∷ (b'.' ∷ (b'0' ∷ (b'.' ∷ (b'0' ∷ (b'.' ∷ (b'1' ∷ []))))))))

-- A text that is empty is replaced; one without a terminator has a first character.
abbrev pub or_local : Option Text → Option Text
or_local none = none
or_local (some []) = some local_host
or_local (some (c ∷ cs)) = some (c ∷ cs)

-- The defaults after the loop; the one for the port is the same text.
unfoldable pub defaults : Options → Options
defaults o = record o { ais_host = or_local o.ais_host; ais_port = or_local o.ais_port }

module _ (rd : Readers) where
  open rd use {atofs, tenths, atoi, verbose_device_search}

  -- The options without an argument.
  unfoldable pub flag : ℕ → Options → Option Options
  flag opt o =
      if opt == b'E'
      then some (record o { edge = not o.edge })
      else if opt == b'O'
      then some (record o { oversample = not o.oversample })
      else if opt == b'D'
      then some (record o { dc_filter = not o.dc_filter })
      else if opt == b'R'
      then some (record o { rtl_agc = true })
      else if opt == b'A'
      then some (record o { use_internal_aisdecoder = false })
      else if opt == b'n'
      then some (record o { debug_nmea = true })
      else if opt == b'L'
      then some (record o { show_levels = true })
      else if opt == b'a'
      then some (record o { use_autotune = true })
      else if opt == b'x'
      then some (record o { without_tcp_worker = true })
      else none

  -- One round of the loop; `none` is an unexpected argument.
  unfoldable pub option : ℕ → Text → Options → Option Options
  unfolding flag copied
  option opt optarg o =
      if opt == b'l'
      then some (record o { left_freq = atofs optarg })
      else if opt == b'r'
      then some (record o { right_freq = atofs optarg })
      else if opt == b's'
      then some (record o { sample_rate = atofs optarg })
      else if opt == b'o'
      then some (record o { output_rate = atofs optarg })
      else if opt == b'd'
      then some (record o { dev_index = verbose_device_search optarg; dev_given = true })
      else if opt == b'g'
      then some (record o { gain = tenths optarg })
      else if opt == b'p'
      then some (record o { ppm_error = atoi optarg; custom_ppm = true })
      else if opt == b'P'
      then some (record o { ais_port = copied optarg })
      else if opt == b'w'
      then some (record o { bandwidth = atoi optarg })
      else if opt == b'h'
      then some (record o { ais_host = copied optarg })
      else if opt == b'S'
      then some (record o { seconds_for_decoder_stats = atoi optarg })
      else flag opt o

  -- The loop, over what `getopt` returns: the option characters with their arguments.
  unfoldable pub options : List (ℕ × Text) → Options → Option Options
  options [] o = some o
  options ((opt, optarg) ∷ rest) o = elim (option opt optarg o) [
    | none ↦ none
    | some o' ↦ options rest o'
  ]
