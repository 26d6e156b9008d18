-- ===== src/Command.antt =====
-- The remote control of app/src/main/jni/rtl_ais_andro.c: `command_worker` reads five-byte commands
-- from a stream socket and calls `librtlsdr`; `sighandler` asks the program to stop.
pub mod Gain
pub mod Worker
pub mod Framing
pub mod Stop
mod Tests
use rtl_ais_android.Base.{
  ℕ, zero, suc, ◌+◌, ◌-◌, ◌*◌, ◌/◌, ◌%◌, ◌^◌, ◌==◌, ltb, leb, Bool, true, false, List, [], ◌∷◌,
  ◌++◌, length, Option, none, some, if◌then◌else◌,
}
use rtl_ais_android.Base.Int.{ℤ, pos, negsuc, to_int32, to_int16}
use rtl_ais_android.Tuning.{
  Call, set_center_freq, set_sample_rate, set_tuner_gain_mode, set_tuner_gain, set_freq_correction,
  set_tuner_if_gain, set_testmode, set_agc_mode, set_direct_sampling, set_offset_tuning,
  set_xtal_freq, set_tuner_bandwidth, cancel_async, Device, nearest_bandwidth,
}

-- gains[index]; `none` is a read beyond the array.
abbrev pub gain_at : List ℤ → ℕ → Option ℤ
gain_at [] i = none
gain_at (g ∷ gs) zero = some g
gain_at (g ∷ gs) (suc i) = gain_at gs i

-- The index of `set_gain_by_perc`. All of it is computed in `unsigned int`, so it cannot be below 0.
pub perc_index : ℕ → ℕ → ℕ
perc_index percent count =
    let index = percent * count % 2 ^ 32 / 100 in
    if leb count index then (count + 2 ^ 32 - 1) % 2 ^ 32 else index

module _ (dev : Device) where
  -- An index that is not supported is ignored.
  unfoldable pub set_gain_by_index : ℕ → Option (List Call)
  set_gain_by_index index =
      let count = length dev.gains in
      if ltb index count
      then elim (gain_at dev.gains index) [ none ↦ none | some g ↦ some (set_tuner_gain g ∷ []) ]
      else some []

  unfoldable pub set_gain_by_perc : ℕ → Option (List Call)
  unfolding perc_index
  set_gain_by_perc percent = elim (gain_at dev.gains (perc_index percent (length dev.gains))) [
    | none ↦ none
    | some g ↦ some (set_tuner_gain g ∷ [])
  ]

-- `struct command`, packed: the five bytes that came from the socket.
pub record Command : Type 0 where
  pub cmd : ℕ
  pub p0 : ℕ
  pub p1 : ℕ
  pub p2 : ℕ
  pub p3 : ℕ

-- ntohl(cmd.param), and cmd.param itself on the little-endian machines of the build.
abbrev pub ntohl_param : Command → ℕ
ntohl_param c = c.p0 * 2 ^ 24 + c.p1 * 2 ^ 16 + c.p2 * 2 ^ 8 + c.p3

abbrev pub raw_param : Command → ℕ
raw_param c = c.p0 + c.p1 * 2 ^ 8 + c.p2 * 2 ^ 16 + c.p3 * 2 ^ 24

-- A `uint32_t` handed to an `int` parameter.
abbrev pub as_int : ℕ → ℤ
as_int n = to_int32 (pos n)

-- What a command does: the calls that it makes, and whether it asks to stop.
pub data Effect : Type 0 where
  calls : List Call → Effect
  stop : Effect
  bad_read : Effect

abbrev effect_of : Option (List Call) → Effect
effect_of none = bad_read
effect_of (some cs) = calls cs

-- An `int` handed to a `uint32_t` parameter.
abbrev pub as_uint : ℤ → ℕ
as_uint (pos n) = n % 2 ^ 32
as_uint (negsuc n) = 2 ^ 32 - 1 - n % 2 ^ 32

module _ (dev : Device) where
  abbrev one : Call → Effect
  one c = calls (c ∷ [])

  -- The commands from 0x0b on.
  pub dispatch_high : Command → Effect
  unfolding set_gain_by_index set_gain_by_perc nearest_bandwidth
  dispatch_high c =
      let param = ntohl_param c in
      if c.cmd == 0x0b
      then one (set_xtal_freq param 0)
      else if c.cmd == 0x0c
      then one (set_xtal_freq 0 param)
      else if c.cmd == 0x0d
      then effect_of (set_gain_by_index dev param)
      else if c.cmd == 0x0e
      then (elim (nearest_bandwidth dev (as_int (raw_param c))) [
        | none ↦ bad_read
        | some w ↦ one (set_tuner_bandwidth (as_uint w))
      ])
      else if c.cmd == 0x7e
      then stop
      else if c.cmd == 0x7f
      then effect_of (set_gain_by_perc dev param)
      else calls []

  -- The `switch`.
  unfoldable pub dispatch : Command → Effect
  unfolding dispatch_high
  dispatch c =
      let param = ntohl_param c in
      if c.cmd == 0x01
      then one (set_center_freq param)
      else if c.cmd == 0x02
      then one (set_sample_rate param)
      else if c.cmd == 0x03
      then one (set_tuner_gain_mode (as_int param))
      else if c.cmd == 0x04
      then one (set_tuner_gain (as_int param))
      else if c.cmd == 0x05
      then one (set_freq_correction (as_int param))
      else if c.cmd == 0x06
      then one (set_tuner_if_gain (param / 2 ^ 16) (to_int16 (pos (param % 2 ^ 16))))
      else if c.cmd == 0x07
      then one (set_testmode (as_int param))
      else if c.cmd == 0x08
      then one (set_agc_mode (as_int param))
      else if c.cmd == 0x09
      then one (set_direct_sampling (as_int param))
      else if c.cmd == 0x0a
      then one (set_offset_tuning (as_int param))
      else dispatch_high c
