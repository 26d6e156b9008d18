-- ===== src/Base/Loop.antt =====
-- `for (i = a; i < n; i += k) s = body i s;` on fuel, with its invariant rule.
use Prim.Native.Nat.{ℕ, zero, suc, ◌+◌, ◌≤◌, ◌<◌}
use mathlib.Core.Path.{◌≡◌, ap}
use mathlib.Core.Bool.{true, false}
use mathlib.Core.Logic.{inl, inr}
use native.Mathlib.Omega.{arith}
use rtl_ais_android.Base.Tests.{ltb, ltb→lt, ltb→le, lt→ltb, Bool-cases}

module _ {ℓ} {S : Type ℓ} (k n : ℕ) (body : ℕ → S → S) where
  unfoldable pub for_fuel : ℕ → ℕ → S → S
  for_fuel zero i s = s
  for_fuel (suc fuel) i s = elim (ltb i n) [ true ↦ for_fuel fuel (i + k) (body i s) | false ↦ s ]

-- The loop with enough fuel for every positive step: one round for each index below `n`.
unfoldable pub for_loop {ℓ} : {S : Type ℓ} → ℕ → ℕ → ℕ → (ℕ → S → S) → S → S
unfolding for_fuel
for_loop a k n body s = for_fuel k n body n a s

module _ {ℓ κ} {S : Type ℓ} (P : ℕ → S → Type κ) (k n : ℕ) (body : ℕ → S → S) (advances : 0 < k)
    (keep : (i : ℕ) (s : S) → i < n → P i s → P (i + k) (body i s)) where
  pub for_fuel_inv :
      (fuel i : ℕ) (s : S)
      → n ≤ i + fuel
      → P i s
      → (j : ℕ) × (n ≤ j) × P j (for_fuel k n body fuel i s)
  unfolding for_fuel
  for_fuel_inv zero i s enough h = (i, omega arith, h)
  for_fuel_inv (suc fuel) i s enough h = elim (Bool-cases (ltb i n)) [
    | inl more ↦
        rw (more, for_fuel)
          (for_fuel_inv fuel (i + k) (body i s) (omega arith) (keep i s (ltb→lt i n more) h))
    | inr done ↦ rw (done, for_fuel) (i, ltb→le i n done, h)
  ]

  -- A loop that keeps `P` ends at an index past its bound, with `P` there: the fuel suffices.
  pub for_loop_inv : (a : ℕ) (s : S) → P a s → (j : ℕ) × (n ≤ j) × P j (for_loop a k n body s)
  unfolding for_loop
  for_loop_inv a s h = for_fuel_inv n a s (omega arith) h

-- One round more: a loop in steps of one up to `suc n` is the loop up to `n` and then the body at `n`.
module _ {ℓ} {S : Type ℓ} (body : ℕ → S → S) where
  for_fuel-suc :
      (fuel i n : ℕ) (s : S)
      → i + fuel ≡ n
      → for_fuel 1 (suc n) body (suc fuel) i s ≡ body n (for_fuel 1 n body fuel i s)
  unfolding for_fuel
  for_fuel-suc zero i n s at =
      let last : i ≡ n = omega (arith, at) in
      rw (lt→ltb i (suc n) (omega (arith, at)), for_fuel) (ap (λ j. body j s) last)
  for_fuel-suc (suc fuel) i n s at =
      rw (lt→ltb i (suc n) (omega (arith, at)), lt→ltb i n (omega (arith, at)), for_fuel)
        (for_fuel-suc fuel (i + 1) n (body i s) (omega (arith, at)))

  pub for_loop-suc : (n : ℕ) (s : S) → for_loop 0 1 (suc n) body s ≡ body n (for_loop 0 1 n body s)
  unfolding for_loop
  for_loop-suc n s = for_fuel-suc n 0 n s (omega arith)

-- Two loops side by side, of the same bounds.
module _ {ℓ κ} {S : Type ℓ} {T : Type ℓ} (R : ℕ → S → T → Type κ) (k n : ℕ) (body : ℕ → S → S)
    (body' : ℕ → T → T) (advances : 0 < k)
    (keep : (i : ℕ) (s : S) (t : T) → i < n → R i s t → R (i + k) (body i s) (body' i t)) where
  for_fuel_rel :
      (fuel i : ℕ) (s : S) (t : T)
      → n ≤ i + fuel
      → R i s t
      → (j : ℕ) × (n ≤ j) × R j (for_fuel k n body fuel i s) (for_fuel k n body' fuel i t)
  unfolding for_fuel
  for_fuel_rel zero i s t enough r = (i, omega arith, r)
  for_fuel_rel (suc fuel) i s t enough r = elim (Bool-cases (ltb i n)) [
    | inl more ↦
        rw (more, for_fuel)
          (for_fuel_rel fuel (i + k) (body i s) (body' i t) (omega arith)
            (keep i s t (ltb→lt i n more) r))
    | inr over ↦ rw (over, for_fuel) (i, ltb→le i n over, r)
  ]

  pub for_loop_rel :
      (a : ℕ) (s : S) (t : T)
      → R a s t
      → (j : ℕ) × (n ≤ j) × R j (for_loop a k n body s) (for_loop a k n body' t)
  unfolding for_loop
  for_loop_rel a s t r = for_fuel_rel n a s t (omega arith) r
