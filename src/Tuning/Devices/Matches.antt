-- ===== src/Tuning/Devices/Matches.antt =====
-- What the search finds, said without the tests that it makes.
use mathlib.Core.Path.{subst}
use mathlib.Core.List.{append-nil}
use rtl_ais_android.Base.{
  ℕ, ◌-◌, ◌≤◌, ◌<◌, ◌≡◌, ◌⊎◌, inl, inr, refl, sym, ap, ◌∙◌, arith, ◌==◌, ◌&&◌, Bool, true, false,
  Bool-cases, List, [], ◌∷◌, ◌++◌, length, length-append, drop, take, drop-append, take-drop,
  length-drop, ltb, ltb→le, ltb→lt, ◌≢◌, if◌then◌else◌,
}
use rtl_ais_android.Base.Int.{ℤ, pos, negsuc}
use rtl_ais_android.Tuning.Devices.{
  Text, is_prefix, is_equal, is_suffix, is_number, verbose_device_search,
}
use rtl_ais_android.Tuning.Devices.Best.{
  rank, serial_at, IsBest, Chosen, verbose_device_search-Chosen,
}

-- How a serial matches the text `s`: it is the text, it begins with it, it ends with it.
pub data Matches (s serial : Text) : ℕ → Type 0 where
  whole : serial ≡ s → Matches s serial 0
  begins : (rest : Text) → serial ≡ s ++ rest → Matches s serial 1
  ends : (front : Text) → serial ≡ front ++ s → Matches s serial 2

same_head : (c d : ℕ) (b : Bool) → ((c == d) && b) ≡ true → (c ≡ d) × (b ≡ true)
same_head c d b h = ground arith

self_head : (c : ℕ) (b : Bool) → b ≡ true → ((c == c) && b) ≡ true
self_head c b h = ground arith

is_equal-same : (s t : Text) → is_equal s t ≡ true → t ≡ s
is_equal-same [] [] h = refl
is_equal-same [] (d ∷ t) h = absurd cc
is_equal-same (c ∷ s) [] h = absurd cc
is_equal-same (c ∷ s) (d ∷ t) h =
    let (head, tail) = same_head c d (is_equal s t) h in let e = is_equal-same s t tail in cc

is_equal_self : (s : Text) → is_equal s s ≡ true
is_equal_self [] = refl
is_equal_self (c ∷ s) = self_head c (is_equal s s) (is_equal_self s)

is_prefix-rest : (s t : Text) → is_prefix s t ≡ true → (rest : Text) × (t ≡ s ++ rest)
is_prefix-rest [] t h = (t, refl)
is_prefix-rest (c ∷ s) [] h = absurd cc
is_prefix-rest (c ∷ s) (d ∷ t) h =
    let (head, tail) = same_head c d (is_prefix s t) h in
    let (rest, e) = is_prefix-rest s t tail in (rest, cc)

is_prefix-append : (s rest : Text) → is_prefix s (s ++ rest) ≡ true
is_prefix-append [] rest = refl
is_prefix-append (c ∷ s) rest = self_head c (is_prefix s (s ++ rest)) (is_prefix-append s rest)

nothing_left : (s rest : Text) → length (s ++ rest) ≤ length s → s ++ rest ≡ s
nothing_left s [] le = append-nil s
nothing_left s (c ∷ rest) le = absurd (omega (arith, le, length-append {0} s (c ∷ rest)))

if_fits : (b c : Bool) → (if b then false else c) ≡ true → (b ≡ false) × (c ≡ true)
if_fits b c h = ground arith

is_suffix-front : (s t : Text) → is_suffix s t ≡ true → (front : Text) × (t ≡ front ++ s)
is_suffix-front s t h =
    let k = length t - length s in
    let (fits, here) = if_fits (ltb (length t) (length s)) (is_prefix s (drop k t)) h in
    let (rest, e) = is_prefix-rest s (drop k t) here in
    let le : length (s ++ rest) ≤ length s =
      subst (λ u. length u ≤ length s) e
        (omega (arith, length-drop k t, ltb→le (length t) (length s) fits)) in
    (take k t, sym (take-drop k t) ∙ ap (λ u. take k t ++ u) (e ∙ nothing_left s rest le))

is_suffix-append : (front s : Text) → is_suffix s (front ++ s) ≡ true
is_suffix-append front s =
    let longer : ltb (length (front ++ s)) (length s) ≡ false =
      ground (arith, length-append {0} front s) in
    let k : length (front ++ s) - length s ≡ length front =
      omega (arith, length-append {0} front s) in
    rw (longer, k, drop-append front s)
      (subst (λ u. is_prefix s u ≡ true) (append-nil s) (is_prefix-append s []))

-- The rank is the least number of a match.
Matches-rank : (s t : Text) (q : ℕ) → Matches s t q → rank s t ≤ q
Matches-rank s t q (whole e) =
    let yes_equal : is_equal s t ≡ true = rw e (is_equal_self s) in rw yes_equal (omega arith)
Matches-rank s t q (begins rest e) =
    let yes_prefix : is_prefix s t ≡ true = rw e (is_prefix-append s rest) in
    ground (arith, yes_prefix)
Matches-rank s t q (ends front e) =
    let yes_suffix : is_suffix s t ≡ true = rw e (is_suffix-append front s) in
    ground (arith, yes_suffix)

Matches-small : (s t : Text) (q : ℕ) → Matches s t q → q ≤ 2
Matches-small s t q (whole e) = omega arith
Matches-small s t q (begins rest e) = omega arith
Matches-small s t q (ends front e) = omega arith

rank-Matches : (s t : Text) → rank s t ≤ 2 → Matches s t (rank s t)
rank-Matches s t le = elim (Bool-cases (is_equal s t)) [
  | inl yes_equal ↦ rw yes_equal (whole (is_equal-same s t yes_equal))
  | inr no_equal ↦ elim (Bool-cases (is_prefix s t)) [
    | inl yes_prefix ↦
        let (rest, e) = is_prefix-rest s t yes_prefix in rw (no_equal, yes_prefix) (begins rest e)
    | inr no_prefix ↦ elim (Bool-cases (is_suffix s t)) [
      | inl yes_suffix ↦
          let (front, e) = is_suffix-front s t yes_suffix in
          rw (no_equal, no_prefix, yes_suffix) (ends front e)
      | inr no_suffix ↦ absurd (ground (arith, le, no_equal, no_prefix, no_suffix))
    ]
  ]
]

module _ (serials : List Text) (s : Text) where
  -- Device i is the first of those that match best.
  pub record IsFound (i : ℕ) : Type 0 where
    pub inside : i < length serials
    pub q : ℕ
    pub match : Matches s (serial_at serials i) q
    pub first :
        (j q' : ℕ)
        → j < length serials
        → Matches s (serial_at serials j) q'
        → (q < q') ⊎ ((q ≡ q') × (i ≤ j))

  abbrev pub Found : ℤ → Type 0
  Found r =
      ((i : ℕ) × (r ≡ pos i) × IsFound i)
      ⊎ ((r ≡ negsuc 0) × ((j q : ℕ) → j < length serials → Matches s (serial_at serials j) q → ⊥))

-- Of ranks ordered so, the least at the first place.
first_of :
    (ri rj q i j : ℕ) → ri ≤ rj → rj ≤ q → (j < i → rj ≢ ri) → (ri < q) ⊎ ((ri ≡ q) × (i ≤ j))
first_of ri rj q i j le le' apart = elim (Bool-cases (ltb ri q)) [
  | inl less ↦ inl (ltb→lt ri q less)
  | inr more ↦ elim (Bool-cases (ltb j i)) [
    | inl before ↦ absurd (apart (ltb→lt j i before) (omega (arith, ltb→le ri q more)))
    | inr after ↦ inr (omega (arith, ltb→le ri q more), ltb→le j i after)
  ]
]

module _ (strtol : Text → ℤ × Bool) (serials : List Text) (s : Text) where
  IsBest-IsFound : (i : ℕ) → IsBest strtol serials s i → IsFound serials s i
  IsBest-IsFound i h = record {
    inside = h.inside;
    q = rank s (serial_at serials i);
    match = rank-Matches s (serial_at serials i) h.matches;
    first = λ j q' lt m.
        first_of (rank s (serial_at serials i)) (rank s (serial_at serials j)) q' i j (h.least j lt)
          (Matches-rank s (serial_at serials j) q' m) (h.first j);
  }

  Chosen-Found : (r : ℤ) → Chosen strtol serials s r → Found serials s r
  Chosen-Found r (inl (i, e, h)) = inl (i, e, IsBest-IsFound i h)
  Chosen-Found r (inr (e, none_fits)) = inr (
    e,
    λ j q lt m. omega (
      arith,
      Matches-rank s (serial_at serials j) q m,
      Matches-small s (serial_at serials j) q m,
      none_fits j lt,
    ),
  )

  -- A text that is not the number of a device: the search returns the first of the devices whose
  -- serial matches it best, where to be the text is better than to begin with it, and that better
  -- than to end with it; and it returns -1 only where no serial matches in any of the three ways.
  pub verbose_device_search-Found :
      is_number strtol serials s ≡ false → Found serials s (verbose_device_search strtol serials s)
  verbose_device_search-Found text =
      Chosen-Found _ (verbose_device_search-Chosen strtol serials s text)
