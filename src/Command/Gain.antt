-- ===== src/Command/Gain.antt =====
-- The gain commands: which of the supported gains is set.
use Prim.Native.Nat.{min}
use rtl_ais_android.Base.{
  ℕ, zero, suc, ◌-◌, ◌*◌, ◌/◌, ◌^◌, ◌≤◌, ◌<◌, ◌≡◌, refl, arith, List, [], ◌∷◌, length, none, some,
}
use rtl_ais_android.Base.Int.{ℤ}
use rtl_ais_android.Tuning.{set_tuner_gain, Device}
use rtl_ais_android.Command.{gain_at, perc_index, set_gain_by_index, set_gain_by_perc}

gain_at-inside : (gs : List ℤ) (i : ℕ) → i < length gs → (g : ℤ) × (gain_at gs i ≡ some g)
gain_at-inside [] i lt = absurd (omega arith)
gain_at-inside (g ∷ gs) zero lt = (g, refl)
gain_at-inside (g ∷ gs) (suc i) lt = gain_at-inside gs i (omega arith)

gain_at-outside : (gs : List ℤ) (i : ℕ) → length gs ≤ i → gain_at gs i ≡ none
gain_at-outside [] i le = refl
gain_at-outside (g ∷ gs) zero le = absurd (omega arith)
gain_at-outside (g ∷ gs) (suc i) le = gain_at-outside gs i (omega arith)

-- `set_gain_by_index` never reads beyond the gains: an index that is supported sets its gain, any
-- other makes no call.
pub set_gain_by_index-safe :
    (dev : Device) (index : ℕ)
    → (index < length dev.gains
        → (g : ℤ) × (gain_at dev.gains index ≡ some g)
          × (set_gain_by_index dev index ≡ some (set_tuner_gain g ∷ [])))
      × (length dev.gains ≤ index → set_gain_by_index dev index ≡ some [])
unfolding set_gain_by_index
set_gain_by_index-safe dev index = (
  λ lt. (let (g, e) = gain_at-inside dev.gains index lt in (g, e, ground arith)),
  λ le. ground arith,
)

perc_index_lem :
    (percent n : ℕ)
    → 0 < n
    → n < 2 ^ 32
    → percent * n < 2 ^ 32
    → perc_index percent n ≡ min (percent * n / 100) (n - 1)
unfolding perc_index
perc_index_lem percent n pos few fits = ground arith

set_gain_by_perc-at :
    (dev : Device) (percent i : ℕ) (g : ℤ)
    → perc_index percent (length dev.gains) ≡ i
    → gain_at dev.gains i ≡ some g
    → set_gain_by_perc dev percent ≡ some (set_tuner_gain g ∷ [])
unfolding set_gain_by_perc
set_gain_by_perc-at dev percent i g index e = rw (index, set_gain_by_perc) (rw e)

-- Where gains are supported and percent times their number fits 32 bits, `set_gain_by_perc` sets the
-- gain at that part of the list, the last one for 100 percent and more.
pub set_gain_by_perc-safe :
    (dev : Device) (percent : ℕ)
    → 0 < length dev.gains
    → length dev.gains < 2 ^ 32
    → percent * length dev.gains < 2 ^ 32
    → (g : ℤ) × (gain_at dev.gains (min (percent * length dev.gains / 100) (length dev.gains - 1))
        ≡ some g)
      × (set_gain_by_perc dev percent ≡ some (set_tuner_gain g ∷ []))
set_gain_by_perc-safe dev percent some_gain few fits =
    let n = length dev.gains in
    let (g, e) = gain_at-inside dev.gains (min (percent * n / 100) (n - 1)) (omega arith) in
    (g, e, set_gain_by_perc-at dev percent _ g (perc_index_lem percent n some_gain few fits) e)

-- Without a supported gain it reads beyond the array, whatever the percentage below 2 ^ 32.
pub set_gain_by_perc-empty :
    (dev : Device) (percent : ℕ) → length dev.gains ≡ 0 → set_gain_by_perc dev percent ≡ none
unfolding set_gain_by_perc
set_gain_by_perc-empty dev percent empty =
    let outside = gain_at-outside dev.gains (2 ^ 32 - 1) (omega arith) in ground arith
