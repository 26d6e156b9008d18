-- ===== src/Opening/Releases.antt =====
-- What `rtlsdr_open2` leaves allocated on every path, and which device it opens.
use mathlib.Core.Path.{subst}
use rtl_ais_android.Base.{
  ℕ, zero, suc, ◌+◌, ◌-◌, ◌%◌, ◌^◌, ◌≤◌, ◌<◌, ◌≡◌, ◌⊎◌, inl, inr, refl, arith, ◌==◌, ==_iff, sym,
  ◌∙◌, not, Bool, true, false, List, [], ◌∷◌, Option, none, some, Bool-cases, if◌then◌else◌,
}
use rtl_ais_android.Base.Int.{ℤ, pos, negsuc, ltb_ℤ, is_zero}
use rtl_ais_android.Opening.{
  Usb, Opened, search_device, fail, probe, set_up, open_found, rtlsdr_open2,
}

-- Device i of the list is a known one, and `index` known ones stand before it.
abbrev pub IsKnownAt : ℕ → ℕ → List Bool → Type 0
IsKnownAt index i [] = ⊥
IsKnownAt index zero (known ∷ ks) = (known ≡ true) × (index ≡ 0)
IsKnownAt index (suc i) (true ∷ ks) = (j : ℕ) × (index ≡ suc j) × IsKnownAt j i ks
IsKnownAt index (suc i) (false ∷ ks) = IsKnownAt index i ks

pub record Failed (r : Opened) : Type 0 where
  pub unset : r.out_dev ≡ none
  pub freed : r.held.memory ≡ false
  pub left : r.held.context ≡ false
  pub error : is_zero r.value ≡ false

pub record Succeeded (u : Usb) (index : ℕ) (r : Opened) : Type 0 where
  pub place : ℕ
  pub known : IsKnownAt index place u.devices
  pub device : r.device ≡ some place
  pub out_dev : r.out_dev ≡ some (probe u).0
  pub value : r.value ≡ pos 0
  pub held : r.held ≡ record { memory = true; context = true; list = false; handle = true }

negative : (z : ℤ) → ltb_ℤ z (pos 0) ≡ true → is_zero z ≡ false
negative (pos n) h = absurd (ground arith)
negative (negsuc n) h = refl

not-true : (b : Bool) → not b ≡ true → b ≡ false
not-true true h = absurd cc
not-true false h = refl

-- The test of a round at `count` known devices: it stops where they are one more than the index.
stops :
    (index count : ℕ)
    → count + 1 < 2 ^ 32
    → index ≡ count
    → (index == (suc count + 2 ^ 32 - 1) % 2 ^ 32) ≡ true
stops index count small e = (==_iff index _).1 (omega arith)

goes_on :
    (index count : ℕ)
    → count ≤ index
    → index + 1 < 2 ^ 32
    → (index == (count + 2 ^ 32 - 1) % 2 ^ 32) ≡ false
goes_on index count le small = elim (Bool-cases (index == (count + 2 ^ 32 - 1) % 2 ^ 32)) [
  | inl same ↦ let e = (==_iff index ((count + 2 ^ 32 - 1) % 2 ^ 32)).0 same in absurd (omega arith)
  | inr other ↦ other
]

-- The device that the search finds, where `k` more known ones are to come before it.
search_known :
    (k index count i place : ℕ) (ks : List Bool)
    → index ≡ count + k
    → index + 1 < 2 ^ 32
    → search_device index count i ks ≡ some place
    → (n : ℕ) × (place ≡ i + n) × IsKnownAt k n ks
unfolding search_device
search_known k index count i place [] at small e = absurd cc
search_known zero index count i place (true ∷ ks) at small e =
    let stop = stops index count (omega arith) (omega arith) in
    let here : search_device index count i (true ∷ ks) ≡ some i = rw (stop, search_device) refl in
    let same : i ≡ place = cc in (0, omega (arith, same), (refl, refl))
search_known (suc k) index count i place (true ∷ ks) at small e =
    let go = goes_on index (suc count) (omega arith) small in
    let next : search_device index count i (true ∷ ks)
        ≡ search_device index (suc count) (suc i) ks =
      rw (go, search_device) refl in
    let (n, there, known) =
      search_known k index (suc count) (suc i) place ks (omega arith) small (sym next ∙ e) in
    (suc n, omega (arith, there), (k, refl, known))
search_known k index count i place (false ∷ ks) at small e =
    let go = goes_on index count (omega arith) small in
    let next : search_device index count i (false ∷ ks) ≡ search_device index count (suc i) ks =
      rw (go, search_device) refl in
    let (n, there, known) = search_known k index count (suc i) place ks at small (sym next ∙ e) in
    (suc n, omega (arith, there), known)

module _ (u : Usb) (index : ℕ) (small : index + 1 < 2 ^ 32) where
  abbrev Result : Opened → Type 0
  Result r = Failed r ⊎ Succeeded u index r

  if-Result :
      (b : Bool) (x y : Opened) → (b ≡ true → Result x) → Result y → Result (if b then x else y)
  if-Result true x y h k = h refl
  if-Result false x y h k = k

  known : (i : ℕ) → search_device index 0 0 u.devices ≡ some i → IsKnownAt index i u.devices
  known i e =
      let (n, at, found) = search_known index index 0 0 i u.devices (omega arith) small e in
      let same : n ≡ i = omega (arith, at) in
      subst (λ (m : ℕ). IsKnownAt index m u.devices) same found

  open_found-Result : (i : ℕ) → search_device index 0 0 u.devices ≡ some i → Result (open_found u i)
  unfolding open_found set_up
  open_found-Result i found =
      if-Result (ltb_ℤ u.open2 (pos 0)) _ _
        (λ e. inl (record { unset = refl; freed = refl; left = refl; error = negative u.open2 e }))
        (if-Result (ltb_ℤ u.claim (pos 0)) _ _
          (λ e.
            inl (record { unset = refl; freed = refl; left = refl; error = negative u.claim e }))
          (inr (record {
            place = i;
            known = known i found;
            device = refl;
            out_dev = refl;
            value = refl;
            held = refl;
          })))

  -- A call either fails, with a code that is not 0, without setting the device, and with its memory
  -- and its context released; or it succeeds with code 0: the device of the list that it has called
  -- `libusb_open2` with is a known one with `index` known ones before it, the tuner that was probed
  -- is handed out, and the device list is released. The index is below 2 ^ 32 - 1.
  pub rtlsdr_open2-Releases :
      Failed (rtlsdr_open2 u index) ⊎ Succeeded u index (rtlsdr_open2 u index)
  unfolding rtlsdr_open2
  rtlsdr_open2-Releases =
      if-Result (not u.malloc) _ _
        (λ e. inl (record { unset = refl; freed = refl; left = refl; error = refl }))
        (if-Result (not (is_zero u.init2)) _ _
          (λ e. inl (record { unset = refl; freed = refl; left = refl; error = not-true _ e }))
          (if-Result (not u.context) _ _
            (λ e. inl (record { unset = refl; freed = refl; left = refl; error = refl }))
            (searched (search_device index 0 0 u.devices) refl)))
    where
      searched :
          (r : Option ℕ)
          → search_device index 0 0 u.devices ≡ r
          → Result (elim r [
            | none ↦
                fail
                  (negsuc 0)
                  none
                  (record { memory = true; context = true; list = true; handle = false })
            | some i ↦ open_found u i
          ])
      searched none e = inl (record { unset = refl; freed = refl; left = refl; error = refl })
      searched (some i) e = open_found-Result i e
