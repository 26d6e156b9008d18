-- ===== src/Tuning/Eeprom/RoundTrip.antt =====
-- `verbose_ppm_eeprom` on the serial of a calibrated device.
use mathlib.Core.Path.{subst}
use mathlib.Core.List.{append_assoc}
use rtl_ais_android.Base.{
  ℕ, zero, suc, ◌+◌, ◌-◌, ◌≤◌, ◌<◌, ◌≡◌, ◌≢◌, refl, sym, ap, ◌∙◌, arith, leb, ◌==◌, ==_iff, true,
  false, [], ◌∷◌, ◌++◌, length, length-append, get_or, take, take-append, drop, drop-append, some,
}
use rtl_ais_android.Base.Int.{ℤ, pos}
use rtl_ais_android.Tuning.Devices.{Text}
use rtl_ais_android.Tuning.Eeprom.{space_from, number_after, verbose_ppm_eeprom}

-- No character is a space.
abbrev pub NoSpace : Text → Type 0
NoSpace [] = Unit {0}
NoSpace (c ∷ cs) = (c ≢ b' ') × NoSpace cs

get_or-append_left : (xs ys : Text) (i : ℕ) → i < length xs → get_or (xs ++ ys) i 0 ≡ get_or xs i 0
get_or-append_left [] ys i lt = absurd (omega arith)
get_or-append_left (x ∷ xs) ys zero lt = refl
get_or-append_left (x ∷ xs) ys (suc i) lt = get_or-append_left xs ys i (omega (arith, lt))

get_or-append_right : (xs ys : Text) (i : ℕ) → get_or (xs ++ ys) (length xs + i) 0 ≡ get_or ys i 0
get_or-append_right [] ys i = let e : 0 + i ≡ i = omega arith in rw e refl
get_or-append_right (x ∷ xs) ys i =
    let e : suc (length xs) + i ≡ suc (length xs + i) = omega arith in
    rw e (get_or-append_right xs ys i)

get_or-NoSpace : (xs : Text) (i : ℕ) → NoSpace xs → i < length xs → get_or xs i 0 ≢ b' '
get_or-NoSpace [] i h lt = absurd (omega arith)
get_or-NoSpace (x ∷ xs) zero h lt = h.0
get_or-NoSpace (x ∷ xs) (suc i) h lt = get_or-NoSpace xs i h.1 (omega (arith, lt))

space_here : (t : Text) (i : ℕ) → get_or t i 0 ≡ b' ' → space_from t (suc i) ≡ some i
unfolding space_from
space_here t i e =
    let test : (get_or t i 0 == b' ') ≡ true = (==_iff (get_or t i 0) b' ').1 e in
    rw (test, space_from) refl

space_before : (t : Text) (i : ℕ) → get_or t i 0 ≢ b' ' → space_from t (suc i) ≡ space_from t i
unfolding space_from
space_before t i ne =
    let test : (get_or t i 0 == b' ') ≡ false = ground (arith, ne) in rw (test, space_from) refl

-- The serial of a device with a calibration: a name, a space, the digits, and a 'p'.
abbrev pub calibrated : Text → Text → Text
calibrated name digits = name ++ (b' ' ∷ (digits ++ (b'p' ∷ [])))

module _ (name digits : Text) (clean : NoSpace digits) where
  abbrev serial : Text
  serial = calibrated name digits

  serial-length : length serial ≡ length name + length digits + 2
  serial-length = omega (
    arith,
    length-append {0} name (b' ' ∷ (digits ++ (b'p' ∷ []))),
    length-append {0} digits (b'p' ∷ []),
  )

  space_at : get_or serial (length name) 0 ≡ b' '
  space_at =
      let e : length name + 0 ≡ length name = omega arith in
      subst (λ n. get_or serial n 0 ≡ b' ') e
        (get_or-append_right name (b' ' ∷ (digits ++ (b'p' ∷ []))) 0)

  digit_at : (i : ℕ) → i < length digits → get_or serial (length name + suc i) 0 ≢ b' '
  digit_at i lt e = get_or-NoSpace digits i clean lt (
      sym (get_or-append_left digits (b'p' ∷ []) i lt)
      ∙ sym (get_or-append_right name (b' ' ∷ (digits ++ (b'p' ∷ []))) (suc i))
      ∙ e)

  last_at : get_or serial (length name + length digits + 1) 0 ≡ b'p'
  last_at =
      let e : length name + length digits + 1 ≡ length name + suc (length digits) = omega arith in
      let z : length digits + 0 ≡ length digits = omega arith in
      rw e (
        get_or-append_right name (b' ' ∷ (digits ++ (b'p' ∷ []))) (suc (length digits))
        ∙ subst (λ n. get_or (digits ++ (b'p' ∷ [])) n 0 ≡ b'p') z
            (get_or-append_right digits (b'p' ∷ []) 0))

  -- The loop meets the digits first, and then the space.
  space_from-digits :
      (n : ℕ) → n ≤ length digits → space_from serial (length name + suc n) ≡ some (length name)
  space_from-digits zero le =
      let e : length name + suc zero ≡ suc (length name) = omega arith in
      rw e (space_here serial (length name) space_at)
  space_from-digits (suc n) le =
      let e : length name + suc (suc n) ≡ suc (length name + suc n) = omega arith in
      rw e (
        space_before serial (length name + suc n) (digit_at n (omega (arith, le)))
        ∙ space_from-digits n (omega (arith, le)))

  number_lem : number_after serial (length name) ≡ digits
  unfolding number_after
  number_lem =
      let count : length serial - 1 - (length name + 1) ≡ length digits =
        omega (arith, serial-length) in
      let before : length name + 1 ≡ length (name ++ (b' ' ∷ [])) =
        omega (arith, length-append {0} name (b' ' ∷ [])) in
      let parts : serial ≡ (name ++ (b' ' ∷ [])) ++ (digits ++ (b'p' ∷ [])) =
        sym (append_assoc name (b' ' ∷ []) (digits ++ (b'p' ∷ []))) in
      rw count (
        ap (take (length digits)) (
          rw before
            (ap (drop _) parts ∙ drop-append (name ++ (b' ' ∷ [])) (digits ++ (b'p' ∷ [])))))
      ∙ take-append digits (b'p' ∷ [])

  -- Of a serial that is a name, a space, digits and a 'p', the correction is read from the digits, with
  -- status 0, if there is a digit, none of them is a space, and name and digits are two characters or
  -- more.
  pub verbose_ppm_eeprom-calibrated :
      (atoi : Text → ℤ) (ppm_error : ℤ)
      → 1 ≤ length digits
      → 2 ≤ length name + length digits
      → verbose_ppm_eeprom atoi (pos 0) (calibrated name digits) ppm_error ≡ (pos 0, atoi digits)
  unfolding verbose_ppm_eeprom
  verbose_ppm_eeprom-calibrated atoi ppm_error some_digits long =
      let long_enough : leb (length serial) 3 ≡ false = ground (arith, serial-length) in
      let at_end : length serial - 1 ≡ length name + length digits + 1 =
        omega (arith, serial-length) in
      let stop : (get_or serial (length serial - 1) 0 == b'p') ≡ true =
        (==_iff (get_or serial (length serial - 1) 0) b'p').1 (rw at_end last_at) in
      let from : length serial - 2 ≡ length name + suc (length digits - 1) =
        omega (arith, serial-length) in
      let space : space_from serial (length serial - 2) ≡ some (length name) =
        rw from (space_from-digits (length digits - 1) (omega arith)) in
      rw (long_enough, stop, space) (ap (λ t. (pos 0, atoi t)) number_lem)
