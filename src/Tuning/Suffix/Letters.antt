-- ===== src/Tuning/Suffix/Letters.antt =====
-- What a suffix does to the number before it.
use rtl_ais_android.Base.{ℕ, ◌≡◌, ◌⊎◌, refl, ap, ◌∙◌, arith, [], ◌∷◌, ◌++◌, Option, some}
use rtl_ais_android.Tuning.Devices.{Text}
use rtl_ais_android.Tuning.Suffix.{
  Numbers, split_last, thousands, with_factor, scaled_parts, scaled, atofs,
}

split_last-append : (s : Text) (c : ℕ) → split_last (s ++ (c ∷ [])) ≡ some (s, c)
unfolding split_last
split_last-append [] c = refl
split_last-append (d ∷ []) c = refl
split_last-append (d ∷ (e ∷ s)) c = rw (split_last-append (e ∷ s) c, split_last) refl

module _ (n : Numbers) (s : Text) where
  scaled-some :
      (factor : ℕ → Option ℕ) (c k : ℕ)
      → factor c ≡ some k
      → scaled n factor (s ++ (c ∷ [])) ≡ some (n.times k (n.atof s))
  unfolding scaled scaled_parts
  scaled-some factor c k e =
      ap (scaled_parts n factor (s ++ (c ∷ []))) (split_last-append s c)
      ∙ ap (λ f. some (with_factor n (s ++ (c ∷ [])) s f)) e

  -- A frequency with one of the suffixes, small or big: `atofs` gives the number before the suffix
  -- times a thousand, a million or a thousand millions.
  pub atofs-suffix :
      (c k : ℕ)
      → ((c ≡ b'k') × (k ≡ 1000))
        ⊎ ((c ≡ b'K') × (k ≡ 1000))
        ⊎ ((c ≡ b'm') × (k ≡ 1000000))
        ⊎ ((c ≡ b'M') × (k ≡ 1000000))
        ⊎ ((c ≡ b'g') × (k ≡ 1000000000))
        ⊎ ((c ≡ b'G') × (k ≡ 1000000000))
      → atofs n (s ++ (c ∷ [])) ≡ some (n.times k (n.atof s))
  unfolding atofs
  atofs-suffix c k h = scaled-some thousands c k (unfold thousands in ground arith)
