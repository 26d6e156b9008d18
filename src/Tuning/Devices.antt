-- ===== src/Tuning/Devices.antt =====
-- `verbose_device_search` of app/src/main/jni/rtl-sdr/src/convenience/convenience.c: a device by its
-- number, or by its serial: the whole of it, how it begins, or how it ends.
pub mod Best
pub mod Matches
use rtl_ais_android.Base.{
  ℕ, zero, suc, ◌+◌, ◌-◌, ltb, leb, ◌==◌, ◌&&◌, not, Bool, true, false, List, [], ◌∷◌, length, drop,
  Option, none, some, if◌then◌else◌,
}
use rtl_ais_android.Base.Int.{ℤ, pos, negsuc, ltb_ℤ}

abbrev pub Text : Type 0
Text = List ℕ

-- strncmp(s, t, strlen(s)) == 0
abbrev pub is_prefix : Text → Text → Bool
is_prefix [] t = true
is_prefix (c ∷ s) [] = false
is_prefix (c ∷ s) (d ∷ t) = (c == d) && is_prefix s t

-- strcmp(s, t) == 0
abbrev pub is_equal : Text → Text → Bool
is_equal [] [] = true
is_equal [] (d ∷ t) = false
is_equal (c ∷ s) [] = false
is_equal (c ∷ s) (d ∷ t) = (c == d) && is_equal s t

-- The test of the last loop, from where `offset` is not negative.
abbrev pub is_suffix : Text → Text → Bool
is_suffix s t =
    if ltb (length t) (length s) then false else is_prefix s (drop (length t - length s) t)

-- A loop over the devices from i on, which stops at the first that passes the test.
pub first_device : (Text → Bool) → ℕ → List Text → Option ℕ
first_device test i [] = none
first_device test i (serial ∷ rest) =
    let later = first_device test (suc i) rest in if test serial then some i else later

-- The device that a loop returns, or what comes after the loop.
abbrev pub or_else : Option ℕ → ℤ → ℤ
or_else (some i) r = pos i
or_else none r = r

-- `strtol` gives the number, and whether it is the whole text; `serials` are those of the devices.
module _ (strtol : Text → ℤ × Bool) (serials : List Text) where
  unfoldable pub is_number : Text → Bool
  is_number s =
      let (device, whole) = strtol s in
      whole && (not (ltb_ℤ device (pos 0)) && ltb_ℤ device (pos (length serials)))

  -- The three loops.
  pub by_serial : Text → ℤ
  unfolding first_device
  by_serial s = or_else (first_device (is_equal s) 0 serials) (
      or_else (first_device (is_prefix s) 0 serials)
        (or_else (first_device (is_suffix s) 0 serials) (negsuc 0)))

  unfoldable pub verbose_device_search : Text → ℤ
  unfolding is_number by_serial
  verbose_device_search s =
      if length serials == 0 then negsuc 0 else if is_number s then (strtol s).0 else by_serial s
