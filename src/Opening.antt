-- ===== src/Opening.antt =====
-- `rtlsdr_open2` of app/src/main/jni/librtlsdr_andro.c: it finds a device on the bus, opens it by a
-- file descriptor, probes its tuner and sets it up. `libusb` and `librtlsdr` are a parameter: what
-- their calls report.
pub mod Releases
pub mod Wrapped
pub mod Tests
use rtl_ais_android.Base.{
  ℕ, zero, suc, ◌+◌, ◌-◌, ◌%◌, ◌^◌, ◌==◌, not, Bool, true, false, List, [], ◌∷◌, ◌++◌, Option, none,
  some, if◌then◌else◌,
}
use rtl_ais_android.Base.Int.{ℤ, pos, negsuc, ltb_ℤ, is_zero}

pub data Tuner : Type 0 where
  e4000 fc0013 r820t r828d fc2580 fc0012 unknown : Tuner

-- Whether `malloc` succeeds; what `libusb_init2` returns and whether it leaves a context; for each
-- device of the list, whether it is a known one; what opening and claiming return; whether the
-- dummy write fails; and which tuners answer the probe with their check value.
pub record Usb : Type 0 where
  pub malloc : Bool
  pub init2 : ℤ
  pub context : Bool
  pub devices : List Bool
  pub open2 : ℤ
  pub claim : ℤ
  pub write_fails : Bool
  pub answers : Tuner → Bool

-- The steps that set the device up.
pub data Step : Type 0 where
  reset_device : Step
  init_baseband : Step
  i2c_repeater : Bool → Step
  gpio_output : ℕ → Step
  gpio_bit : Bool → Step
  demod_write : ℕ → ℕ → ℕ → Step
  set_if_freq : Step
  direct_sampling : Step
  tuner_init : Tuner → Step

-- What is allocated: the memory of `dev`, its context, the device list and the handle.
pub record Held : Type 0 where
  pub memory : Bool
  pub context : Bool
  pub list : Bool
  pub handle : Bool

-- The return value, what `*out_dev` is set to if it is set, the place in the list of the device that
-- `libusb_open2` is called with if it is called, what stays allocated, and the steps.
pub record Opened : Type 0 where
  pub value : ℤ
  pub out_dev : Option Tuner
  pub device : Option ℕ
  pub held : Held
  pub steps : List Step

-- The loop over the list, from device i on with `count` known ones so far; `index` and `count` are
-- `uint32_t`.
pub search_device : ℕ → ℕ → ℕ → List Bool → Option ℕ
search_device index count i [] = none
search_device index count i (known ∷ ks) =
    let count' = if known then suc count else count in
    let rest = search_device index count' (suc i) ks in
    if index == (count' + 2 ^ 32 - 1) % 2 ^ 32 then some i else rest

-- The label `err`, which frees neither the list nor the handle.
abbrev pub fail : ℤ → Option ℕ → Held → Opened
fail r d h = record {
  value = r;
  out_dev = none;
  device = d;
  held = record h { memory = false; context = false };
  steps = [];
}

module _ (u : Usb) where
  -- The probes in order, up to the label `found`.
  pub probe : Tuner × List Step
  probe =
      let gpio = gpio_output 5 ∷ (gpio_bit true ∷ (gpio_bit false ∷ [])) in
      if u.answers e4000
      then (e4000, [])
      else if u.answers fc0013
      then (fc0013, [])
      else if u.answers r820t
      then (r820t, [])
      else if u.answers r828d
      then (r828d, [])
      else if u.answers fc2580
      then (fc2580, gpio)
      else if u.answers fc0012
      then (fc0012, gpio ++ (gpio_output 6 ∷ []))
      else (unknown, gpio)

  abbrev pub r82xx_steps : List Step
  r82xx_steps =
      demod_write 1 0xb1 0x1a
      ∷ (demod_write 0 0x08 0x4d ∷ (set_if_freq ∷ (demod_write 1 0x15 0x01 ∷ [])))

  -- The `switch` over the tuner. The case of the R828D falls through.
  abbrev pub tuner_steps : Tuner → List Step
  tuner_steps r828d = r82xx_steps
  tuner_steps r820t = r82xx_steps
  tuner_steps unknown = direct_sampling ∷ []
  tuner_steps _ = []

  -- An unknown tuner has no `init`.
  abbrev pub init_steps : Tuner → List Step
  init_steps unknown = []
  init_steps tuner = tuner_init tuner ∷ []

  -- From the dummy write on.
  pub set_up : ℕ → Opened
  unfolding probe
  set_up i =
      let (tuner, probing) = probe in
      record {
        value = pos 0;
        out_dev = some tuner;
        device = some i;
        held = record { memory = true; context = true; list = false; handle = true };
        steps =
            (if u.write_fails then reset_device ∷ [] else [])
            ++ (init_baseband ∷ (i2c_repeater true ∷ probing))
            ++ tuner_steps tuner
            ++ init_steps tuner
            ++ (i2c_repeater false ∷ []);
      }

  -- Once device i of the list is found.
  pub open_found : ℕ → Opened
  unfolding set_up
  open_found i =
      let context : Held = record { memory = true; context = true; list = false; handle = false } in
      if ltb_ℤ u.open2 (pos 0)
      then fail u.open2 (some i) context
      else if ltb_ℤ u.claim (pos 0)
      then fail u.claim (some i) (record context { handle = true })
      else set_up i

  abbrev nothing_held : Held
  nothing_held = record { memory = false; context = false; list = false; handle = false }

  -- -ENOMEM is -12, and LIBUSB_ERROR_OTHER is -99.
  unfoldable pub rtlsdr_open2 : ℕ → Opened
  unfolding search_device open_found
  rtlsdr_open2 index =
      if not u.malloc
      then fail (negsuc 11) none nothing_held
      else if not (is_zero u.init2)
      then fail u.init2 none nothing_held
      else if not u.context
      then fail (negsuc 98) none nothing_held
      else (elim (search_device index 0 0 u.devices) [
        | none ↦
            fail (negsuc 0) none
              (record { memory = true; context = true; list = true; handle = false })
        | some i ↦ open_found i
      ])
