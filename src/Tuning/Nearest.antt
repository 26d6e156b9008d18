-- ===== src/Tuning/Nearest.antt =====
-- The choice of the nearest supported value.
use rtl_ais_android.Base.{
  ℕ, ◌≤◌, ◌≡◌, ◌⊎◌, refl, arith, ltb, ltb→lt, ltb→le, Bool-cases, inl, inr, List, [], ◌∷◌, some, ap,
  ◌∙◌,
}
use rtl_ais_android.Base.Int.{ℤ, ◌-ℤ◌, abs, to_int32_fits, Within, int_laws}
use rtl_ais_android.Tuning.{Device, err, closer, nearest_from, nearest_bandwidth}

-- The value is one of the list.
abbrev pub IsIn : ℤ → List ℤ → Type 0
IsIn x [] = ⊥
IsIn x (g ∷ gs) = (x ≡ g) ⊎ IsIn x gs

abbrev pub All : (ℤ → Type 0) → List ℤ → Type 0
All P [] = Unit {0}
All P (g ∷ gs) = P g × All P gs

closer-choice :
    (target n g : ℤ)
    → ((closer target n g ≡ n) ⊎ (closer target n g ≡ g))
      × (err target (closer target n g) ≤ err target n)
      × (err target (closer target n g) ≤ err target g)
unfolding closer
closer-choice target n g = elim (Bool-cases (ltb (err target g) (err target n))) [
  | inl less ↦ rw less (inr refl, omega (arith, ltb→lt _ _ less), omega arith)
  | inr more ↦ rw more (inl refl, omega arith, ltb→le _ _ more)
]

nearest_from-chosen :
    (target n : ℤ) (gs : List ℤ)
    → (nearest_from target n gs ≡ n) ⊎ IsIn (nearest_from target n gs) gs
unfolding nearest_from
nearest_from-chosen target n [] = inl refl
nearest_from-chosen target n (g ∷ gs) =
    either (nearest_from-chosen target (closer target n g) gs) (closer-choice target n g).0
  where
    either : {x c : ℤ} → (x ≡ c) ⊎ IsIn x gs → (c ≡ n) ⊎ (c ≡ g) → (x ≡ n) ⊎ ((x ≡ g) ⊎ IsIn x gs)
    either (inl e) (inl old) = inl (e ∙ old)
    either (inl e) (inr new) = inr (inl (e ∙ new))
    either (inr m) d = inr (inr m)

nearest_from-least :
    (target n : ℤ) (gs : List ℤ)
    → (err target (nearest_from target n gs) ≤ err target n)
      × All (λ g. err target (nearest_from target n gs) ≤ err target g) gs
unfolding nearest_from
nearest_from-least target n [] = (omega arith, tt)
nearest_from-least target n (g ∷ gs) =
    let (old, new) = nearest_from-least target (closer target n g) gs in
    let (choice, le_n, le_g) = closer-choice target n g in
    (omega (arith, old, le_n), (omega (arith, old, le_g), new))

-- The exact distance, where no difference can leave the range of `int`.
abbrev pub distance : ℤ → ℤ → ℕ
distance target g = abs (target -ℤ g)

abbrev pub Small : ℤ → Type 0
Small z = Within 1073741823 z

err-distance : (target g : ℤ) → Small target → Small g → err target g ≡ distance target g
err-distance target g ht hg = ap abs (to_int32_fits (target -ℤ g) (omega int_laws) (omega int_laws))

least-distance :
    (target x : ℤ) (gs : List ℤ)
    → Small target
    → Small x
    → All Small gs
    → All (λ g. err target x ≤ err target g) gs
    → All (λ g. distance target x ≤ distance target g) gs
least-distance target x [] ht hx hs h = tt
least-distance target x (g ∷ gs) ht hx hs h = (
  omega (arith, h.0, err-distance target x ht hx, err-distance target g ht hs.0),
  least-distance target x gs ht hx hs.1 h.1,
)

IsIn-All : (P : ℤ → Type 0) (x : ℤ) (gs : List ℤ) → IsIn x gs → All P gs → P x
IsIn-All P x [] m h = absurd m
IsIn-All P x (g ∷ gs) (inl e) h = rw e h.0
IsIn-All P x (g ∷ gs) (inr m) h = IsIn-All P x gs m h.1

module _ (target g : ℤ) (gs : List ℤ) (ht : Small target) (hs : All Small (g ∷ gs)) where
  abbrev choice : ℤ
  choice = nearest_from target g (g ∷ gs)

  chosen : IsIn choice (g ∷ gs)
  chosen = member (nearest_from-chosen target g (g ∷ gs))
    where
      member : (choice ≡ g) ⊎ IsIn choice (g ∷ gs) → IsIn choice (g ∷ gs)
      member (inl e) = inl e
      member (inr m) = m

  least : All (λ x. distance target choice ≤ distance target x) (g ∷ gs)
  least =
      least-distance target choice (g ∷ gs) ht (IsIn-All Small choice (g ∷ gs) chosen hs) hs
        (nearest_from-least target g (g ∷ gs)).1

-- When bandwidths are supported, `nearest_bandwidth` returns one of them, and none is nearer to
-- the target; target and bandwidths lie within 2 ^ 30.
pub nearest_bandwidth-least :
    (dev : Device) (target w : ℤ) (ws : List ℤ)
    → dev.bandwidths ≡ w ∷ ws
    → Small target
    → All Small (w ∷ ws)
    → (v : ℤ) × (nearest_bandwidth dev target ≡ some v)
      × IsIn v (w ∷ ws)
      × All (λ x. distance target v ≤ distance target x) (w ∷ ws)
nearest_bandwidth-least dev target w ws has ht hs = (
  nearest_from target w (w ∷ ws),
  unfold nearest_bandwidth in rw has,
  chosen target w ws ht hs,
  least target w ws ht hs,
)
