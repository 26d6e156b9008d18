-- ===== src/Session/Main/Opened.antt =====
-- The device of a run with a file descriptor: the index that the options leave, handed to
-- `rtlsdr_open2` as a `uint32_t`.
use Prim.{tt}
use mathlib.Core.Path.{subst}
use rtl_ais_android.Base.{
  ℕ, ◌+◌, ◌-◌, ◌^◌, ◌<◌, ◌≡◌, ◌⊎◌, inl, inr, refl, sym, ap, ◌∙◌, arith, Bool, true, false, List, [],
  ◌∷◌, length, Option, none, some, if◌then◌else◌,
}
use rtl_ais_android.Base.Int.{ℤ, pos, negsuc}
use rtl_ais_android.Command.{as_uint}
use rtl_ais_android.Opening.{Tuner, Usb, rtlsdr_open2}
use rtl_ais_android.Opening.Wrapped.{Answers, rtlsdr_open2_wrapped}
use rtl_ais_android.Opening.Releases.{Succeeded, rtlsdr_open2-Releases}
use rtl_ais_android.Tuning.Devices.{verbose_device_search}
use rtl_ais_android.Session.Options.{
  Text, Readers, Options, copied, flag, option, options, reset, defaults,
}
use rtl_ais_android.Session.Rates.{
  Logarithm, Plan, Planned, planned, wrong_args, exits, undefined, plan,
}
use rtl_ais_android.Session.Main.{
  Event, set_isrunning, open_device, Ending, returned, exited, waits, unspecified, Calls, quit,
  start_output, check_device, find_device, tuned, planned_run, parsed_run, rtl_ais_main,
}

abbrev pub is_set : Option Tuner → Bool
is_set none = false
is_set (some tuner) = true

-- What `rtlsdr_open2` reports to the first run of a process, whose `dev` is NULL before the call.
abbrev pub linked : Usb → Options → Calls → Calls
linked u o c =
    let opened = rtlsdr_open2 u (as_uint o.dev_index) in
    record c { open_result = opened.value; dev_set = is_set opened.out_dev }

-- The search for a device where `serials` are those of the devices that librtlsdr lists.
abbrev pub searching : (Text → ℤ × Bool) → List Text → Readers → Readers
searching strtol serials rd = record rd {
  verbose_device_search = verbose_device_search strtol serials;
}

-- Where librtlsdr lists no device, every `-d` leaves the index -1.
abbrev Lost : Options → Type 0
Lost o = o.dev_given ≡ true → o.dev_index ≡ negsuc 0

module _ (strtol : Text → ℤ × Bool) (rd : Readers) where
  option-Lost :
      (opt : ℕ) (optarg : Text) (o o' : Options)
      → option (searching strtol [] rd) opt optarg o ≡ some o'
      → Lost o
      → Lost o'
  unfolding option flag copied verbose_device_search
  option-Lost opt optarg o o' e h given = ground (arith, e, h, given)

  options_step :
      (opt : ℕ) (optarg : Text) (rest : List (ℕ × Text)) (o o' : Options)
      → options (searching strtol [] rd) ((opt, optarg) ∷ rest) o ≡ some o'
      → (next : Options) × (option (searching strtol [] rd) opt optarg o ≡ some next)
        × (options (searching strtol [] rd) rest next ≡ some o')
  unfolding options
  options_step opt optarg rest o o' e = either (option (searching strtol [] rd) opt optarg o) refl e
    where
      either :
          (r : Option Options)
          → option (searching strtol [] rd) opt optarg o ≡ r
          → (elim r [ none ↦ none | some next ↦ options (searching strtol [] rd) rest next ])
            ≡ some o'
          → (next : Options) × (option (searching strtol [] rd) opt optarg o ≡ some next)
            × (options (searching strtol [] rd) rest next ≡ some o')
      either none at e = absurd cc
      either (some next) at e = (next, at, e)

  options-Lost :
      (args : List (ℕ × Text)) (o o' : Options)
      → options (searching strtol [] rd) args o ≡ some o'
      → Lost o
      → Lost o'
  unfolding options
  options-Lost [] o o' e h = let same : o ≡ o' = cc in subst (λ t. Lost t) same h
  options-Lost ((opt, optarg) ∷ rest) o o' e h =
      let (next, at, later) = options_step opt optarg rest o o' e in
      options-Lost rest next o' later (option-Lost opt optarg o next at h)

  reset-Lost : (g : Options) → Lost (reset g)
  unfolding reset
  reset-Lost g given = absurd cc

-- Nothing is opened.
abbrev opens : List Event → Bool
opens [] = false
opens (open_device ∷ es) = true
opens (_ ∷ es) = opens es

abbrev pub NotOpened : Ending → Type 0
NotOpened (returned es) = opens es ≡ false
NotOpened (exited es) = opens es ≡ false
NotOpened (waits es) = opens es ≡ false
NotOpened unspecified = Unit {0}

if-NotOpened :
    (b : Bool) (x y : Ending) → NotOpened x → NotOpened y → NotOpened (if b then x else y)
if-NotOpened true x y h k = h
if-NotOpened false x y h k = k

abbrev running : List Event
running = set_isrunning true ∷ []

module _ (c : Calls) (unset : c.dev_set ≡ false) (do_exit : Bool) (log : Logarithm)
    (rd : Readers) where
  check_device-NotOpened : (o : Options) (p : Plan) → NotOpened (check_device c do_exit o p running)
  unfolding check_device
  check_device-NotOpened o p = rw unset refl

  planned_run-NotOpened :
      (usbfd : Bool) (o : Options) (r : Planned)
      → NotOpened (planned_run c do_exit rd usbfd o running r)
  unfolding planned_run find_device
  planned_run-NotOpened usbfd o (planned p) =
      if-NotOpened _ (quit (pos 3) running) _ refl (check_device-NotOpened o p)
  planned_run-NotOpened usbfd o wrong_args = refl
  planned_run-NotOpened usbfd o exits = refl
  planned_run-NotOpened usbfd o undefined = tt

  main-NotOpened :
      (usbfd : Bool) (args : List (ℕ × Text)) (g : Options)
      → NotOpened (rtl_ais_main c do_exit log rd usbfd args g)
  unfolding rtl_ais_main parsed_run
  main-NotOpened usbfd args g =
      if-NotOpened _ (quit (pos 2) running) _ refl (parsed (options rd args (reset g)))
    where
      parsed : (r : Option Options) → NotOpened (parsed_run c do_exit log rd usbfd running r)
      parsed none = refl
      parsed (some o) = planned_run-NotOpened usbfd (defaults o) (plan log (tuned c (defaults o)))

-- The first run of a process, with a file descriptor, whose options leave an index n below 2 ^ 32 - 1:
-- it opens nothing, or `rtlsdr_open2`, called with n, has succeeded, and the device of the list that it
-- has called `libusb_open2` with is a known one with n known ones before it. A run whose effect
-- C leaves undefined is left open.
pub rtl_ais_main-device :
    (u : Usb) (c : Calls) (log : Logarithm) (rd : Readers) (args : List (ℕ × Text)) (g o : Options)
    (n : ℕ)
    → options rd args (reset g) ≡ some o
    → o.dev_index ≡ pos n
    → n + 1 < 2 ^ 32
    → NotOpened (rtl_ais_main (linked u o c) false log rd true args g)
      ⊎ Succeeded u n (rtlsdr_open2 u (as_uint o.dev_index))
rtl_ais_main-device u c log rd args g o n parsed at small =
    let index : as_uint o.dev_index ≡ n = ap as_uint at ∙ omega (arith, small) in
    elim (rtlsdr_open2-Releases u n small) [
      | inr done ↦ inr (subst (λ i. Succeeded u n (rtlsdr_open2 u i)) (sym index) done)
      | inl failed ↦ inl (
          main-NotOpened (linked u o c)
            (ap (λ i. is_set (rtlsdr_open2 u i).out_dev) index ∙ ap is_set failed.unset) false log
            rd true args g)
    ]

-- The first run of a process, with a valid file descriptor, where librtlsdr lists no device, the options
-- name one, and the plan is accepted: the index is 2 ^ 32 - 1 as a `uint32_t`, and where the calls of
-- libusb succeed, on a list of less than 2 ^ 32 devices, `rtlsdr_open2`, called with it, opens the first
-- device of the list if that is not a known one, and none if it is; the run then goes on with the
-- device, or ends with EXIT_FAILED_TO_OPEN_DEVICE (4).
pub rtl_ais_main-wrong_device :
    (u : Usb) (known : Bool) (ks : List Bool) (c : Calls) (log : Logarithm) (p : Plan)
    (strtol : Text → ℤ × Bool) (rd : Readers) (args : List (ℕ × Text)) (g o : Options)
    → Answers u
    → u.devices ≡ known ∷ ks
    → length ks < 2 ^ 32 - 1
    → c.fd_valid ≡ true
    → options (searching strtol [] rd) args (reset g) ≡ some o
    → o.dev_given ≡ true
    → plan log (tuned c (defaults o)) ≡ planned p
    → (as_uint o.dev_index ≡ 2 ^ 32 - 1)
      × ((rtlsdr_open2 u (as_uint o.dev_index)).device ≡ (if known then none else some 0))
      × (rtl_ais_main (linked u o c) false log (searching strtol [] rd) true args g ≡ (
          if known
          then quit (pos 4) (set_isrunning true ∷ [])
          else start_output
              (linked u o c)
              false
              (defaults o)
              p
              (set_isrunning true ∷ (open_device ∷ []))))
unfolding rtl_ais_main parsed_run planned_run find_device check_device defaults
rtl_ais_main-wrong_device u known ks c log p strtol rd args g o well listed few valid parsed given
      accepted =
    let lost = options-Lost strtol rd args (reset g) o parsed (reset-Lost strtol rd g) given in
    let index : as_uint o.dev_index ≡ 2 ^ 32 - 1 = ap as_uint lost in
    let (value, out_dev, device) = rtlsdr_open2_wrapped u known ks well listed few in
    (
      index,
      ap (λ i. (rtlsdr_open2 u i).device) index ∙ device,
      rw (valid, parsed, accepted) (ground (arith, index, value, out_dev)),
    )
