-- ===== src/Tuning/Devices/Best.antt =====
-- How well a serial matches, and the device that the search chooses.
use mathlib.Core.Path.{subst}
use rtl_ais_android.Base.{
  ℕ, zero, suc, ◌+◌, ◌≤◌, ◌<◌, ◌≡◌, ◌⊎◌, inl, inr, refl, sym, ◌∙◌, ◌≢◌, arith, ◌==◌, Bool, true,
  false, Bool-cases, List, [], ◌∷◌, length, get_or, Option, none, some, if◌then◌else◌,
}
use rtl_ais_android.Base.Int.{ℤ, pos, negsuc}
use rtl_ais_android.Tuning.Devices.{
  Text, is_prefix, is_equal, is_suffix, first_device, or_else, is_number, by_serial,
  verbose_device_search,
}

-- How well a serial matches: 0 the same, 1 it begins so, 2 it ends so, 3 not at all.
abbrev pub rank : Text → Text → ℕ
rank s serial =
    if is_equal s serial
    then 0
    else if is_prefix s serial
    then 1
    else if is_suffix s serial
    then 2
    else 3

-- The serial of device j.
abbrev pub serial_at : List Text → ℕ → Text
serial_at serials j = get_or serials j []

module _ (test : Text → Bool) where
  -- The first device that passes, and that none does.
  record FirstAt (ks : List Text) (i : ℕ) : Type 0 where
    pub inside : i < length ks
    pub passes : test (serial_at ks i) ≡ true
    pub before : (j : ℕ) → j < i → test (serial_at ks j) ≡ false

  found_here :
      (n : ℕ) (s : Text) (ks : List Text) → test s ≡ true → first_device test n (s ∷ ks) ≡ some n
  unfolding first_device
  found_here n s ks yes_here = rw (yes_here, first_device) refl

  not_here :
      (n : ℕ) (s : Text) (ks : List Text)
      → test s ≡ false
      → first_device test n (s ∷ ks) ≡ first_device test (suc n) ks
  unfolding first_device
  not_here n s ks fails = rw (fails, first_device) refl

  all_false :
      (s : Text) (ks : List Text) (k : ℕ)
      → test s ≡ false
      → ((j : ℕ) → j < k → test (serial_at ks j) ≡ false)
      → (j : ℕ) → j < suc k
      → test (serial_at (s ∷ ks) j) ≡ false
  all_false s ks k h f zero lt = h
  all_false s ks k h f (suc j) lt = f j (omega (arith, lt))

  first_device-FirstAt :
      (n i : ℕ) (ks : List Text)
      → first_device test n ks ≡ some i
      → (k : ℕ) × (i ≡ n + k) × FirstAt ks k
  first_device-FirstAt n i [] e = unfold first_device in cc
  first_device-FirstAt n i (s ∷ ks) e = elim (Bool-cases (test s)) [
    | inl here ↦
        let same : n ≡ i = unwrap (sym (found_here n s ks here) ∙ e) in
        (
          0,
          omega (arith, same),
          record { inside = omega arith; passes = here; before = λ j lt. absurd (omega arith) },
        )
    | inr later ↦
        let (k, at, found) = first_device-FirstAt (suc n) i ks (sym (not_here n s ks later) ∙ e) in
        (
          suc k,
          omega (arith, at),
          record {
            inside = omega (arith, found.inside);
            passes = found.passes;
            before = all_false s ks k later found.before;
          },
        )
  ]
    where
      unwrap : {a b : ℕ} → some a ≡ some b → a ≡ b
      unwrap h = cc

  first_device-none :
      (n : ℕ) (ks : List Text)
      → first_device test n ks ≡ none
      → (j : ℕ) → j < length ks
      → test (serial_at ks j) ≡ false
  first_device-none n [] e j lt = absurd (omega arith)
  first_device-none n (s ∷ ks) e j lt = elim (Bool-cases (test s)) [
    | inl here ↦ let no_way = sym (found_here n s ks here) ∙ e in absurd cc
    | inr later ↦
        all_false s ks (length ks) later
          (first_device-none (suc n) ks (sym (not_here n s ks later) ∙ e)) j (omega (arith, lt))
  ]

-- What the tests say of the rank.
module _ (s d : Text) where
  rank-equal : is_equal s d ≡ true → rank s d ≡ 0
  rank-equal h = rw h refl

  rank-unequal : is_equal s d ≡ false → 1 ≤ rank s d
  rank-unequal h = ground arith

  rank-prefix : is_equal s d ≡ false → is_prefix s d ≡ true → rank s d ≡ 1
  rank-prefix h k = rw (h, k) refl

  rank-no_prefix : is_equal s d ≡ false → is_prefix s d ≡ false → 2 ≤ rank s d
  rank-no_prefix h k = ground arith

  rank-suffix : is_equal s d ≡ false → is_prefix s d ≡ false → is_suffix s d ≡ true → rank s d ≡ 2
  rank-suffix h k l = rw (h, k, l) refl

  rank-none : is_equal s d ≡ false → is_prefix s d ≡ false → is_suffix s d ≡ false → rank s d ≡ 3
  rank-none h k l = rw (h, k, l) refl

module _ (strtol : Text → ℤ × Bool) (serials : List Text) (s : Text) where
  -- Device i is the best match, the first one of those that match as well.
  pub record IsBest (i : ℕ) : Type 0 where
    pub inside : i < length serials
    pub matches : rank s (serial_at serials i) ≤ 2
    pub least :
        (j : ℕ) → j < length serials → rank s (serial_at serials i) ≤ rank s (serial_at serials j)
    pub first : (j : ℕ) → j < i → rank s (serial_at serials j) ≢ rank s (serial_at serials i)

  abbrev pub Chosen : ℤ → Type 0
  Chosen r =
      ((i : ℕ) × (r ≡ pos i) × IsBest i)
      ⊎ ((r ≡ negsuc 0) × ((j : ℕ) → j < length serials → rank s (serial_at serials j) ≡ 3))

  -- A device of rank `r`, where all have that rank at least, and those before it another.
  best :
      (r i : ℕ)
      → r ≤ 2
      → i < length serials
      → rank s (serial_at serials i) ≡ r
      → ((j : ℕ) → j < length serials → r ≤ rank s (serial_at serials j))
      → ((j : ℕ) → j < i → rank s (serial_at serials j) ≢ r)
      → Chosen (pos i)
  best r i small lt e least first = inl (
    i,
    refl,
    record {
      inside = lt;
      matches = omega (arith, e);
      least = λ j l. omega (arith, e, least j l);
      first = λ j l same. first j l (same ∙ e);
    },
  )

  or_else-Chosen :
      (o : Option ℕ) (r : ℤ)
      → ((i : ℕ) → o ≡ some i → Chosen (pos i))
      → (o ≡ none → Chosen r)
      → Chosen (or_else o r)
  or_else-Chosen (some i) r h k = h i refl
  or_else-Chosen none r h k = k refl

  found :
      (test : Text → Bool) (i : ℕ) → first_device test 0 serials ≡ some i → FirstAt test serials i
  found test i e =
      let (k, at, first) = first_device-FirstAt test 0 i serials e in
      let same : k ≡ i = omega (arith, at) in subst (λ n. FirstAt test serials n) same first

  abbrev d : ℕ → Text
  d j = serial_at serials j

  abbrev Fails : (Text → Bool) → Type 0
  Fails test = (j : ℕ) → j < length serials → test (d j) ≡ false

  equal_best : (i : ℕ) → FirstAt (is_equal s) serials i → Chosen (pos i)
  equal_best i f =
      best 0 i (omega arith) f.inside (rank-equal s (d i) f.passes) (λ j l. omega arith)
        (λ j l same. omega (arith, same, rank-unequal s (d j) (f.before j l)))

  prefix_best : (i : ℕ) → Fails (is_equal s) → FirstAt (is_prefix s) serials i → Chosen (pos i)
  prefix_best i unequal f =
      best 1 i (omega arith) f.inside (rank-prefix s (d i) (unequal i f.inside) f.passes)
        (λ j l. rank-unequal s (d j) (unequal j l))
        (λ j l same. omega (
          arith,
          same,
          rank-no_prefix s (d j) (unequal j (omega (arith, f.inside))) (f.before j l),
        ))

  suffix_best :
      (i : ℕ)
      → Fails (is_equal s)
      → Fails (is_prefix s)
      → FirstAt (is_suffix s) serials i
      → Chosen (pos i)
  suffix_best i unequal no_prefix f =
      best 2 i (omega arith) f.inside
        (rank-suffix s (d i) (unequal i f.inside) (no_prefix i f.inside) f.passes)
        (λ j l. rank-no_prefix s (d j) (unequal j l) (no_prefix j l))
        (λ j l same.
          let lt : j < length serials = omega (arith, f.inside) in
          omega (arith, same, rank-none s (d j) (unequal j lt) (no_prefix j lt) (f.before j l)))

  by_serial-Chosen : Chosen (by_serial strtol serials s)
  unfolding by_serial
  by_serial-Chosen =
      or_else-Chosen _ _ (λ i e. equal_best i (found (is_equal s) i e))
        (λ e0.
          let unequal = first_device-none (is_equal s) 0 serials e0 in
          or_else-Chosen _ _ (λ i e. prefix_best i unequal (found (is_prefix s) i e))
            (λ e1.
              let no_prefix = first_device-none (is_prefix s) 0 serials e1 in
              or_else-Chosen _ _ (λ i e. suffix_best i unequal no_prefix (found (is_suffix s) i e))
                (λ e2.
                  let no_suffix = first_device-none (is_suffix s) 0 serials e2 in
                  inr (
                    refl,
                    λ j l. rank-none s (d j) (unequal j l) (no_prefix j l) (no_suffix j l),
                  ))))

  -- A text that is not the number of a device: the search returns the first of the devices whose
  -- serial matches it best (the whole serial before its beginning before its end), and -1 exactly
  -- where none matches.
  pub verbose_device_search-Chosen :
      is_number strtol serials s ≡ false → Chosen (verbose_device_search strtol serials s)
  unfolding verbose_device_search
  verbose_device_search-Chosen text = elim (Bool-cases (length serials == 0)) [
    | inl no_device ↦
        rw (no_device, verbose_device_search)
          (inr (refl, λ j l. absurd (ground (arith, no_device, l))))
    | inr some_device ↦ rw (some_device, text, verbose_device_search) by_serial-Chosen
  ]
