-- ===== src/Base/Memory.antt =====
-- C arrays as functions from index to value; a pointer into an array is an index.
-- A store reaches one index, so what an operation leaves alone is stated index by index.
use Prim.Native.Nat.{ℕ, suc, ◌<◌}
use mathlib.Core.Path.{◌≡◌}
use mathlib.Core.Logic.{◌≢◌, inl, inr}
use native.Mathlib.Omega.{arith}
use rtl_ais_android.Base.Tests.{◌==◌, if◌then◌else◌, Bool-cases}

abbrev pub Array {ℓ} : Type ℓ → Type ℓ
Array A = ℕ → A

module _ {ℓ} {A : Type ℓ} where
  abbrev pub update : Array A → ℕ → A → Array A
  update m i v j = if i == j then v else m j

  pub update_self : (m : Array A) (i : ℕ) (v : A) → update m i v i ≡ v
  update_self m i v = ground arith

  pub update_ne : (m : Array A) (i j : ℕ) (v : A) → i ≢ j → update m i v j ≡ m j
  update_ne m i j v h = ground arith

  -- The arrays have the same values below `n`.
  abbrev pub Agree : ℕ → Array A → Array A → Type ℓ
  Agree n a b = (x : ℕ) → x < n → a x ≡ b x

  pub update-Agree :
      (n i : ℕ) (v w : A) (a b : Array A)
      → v ≡ w
      → Agree n a b
      → Agree n (update a i v) (update b i w)
  update-Agree n i v w a b e h x lt = elim (Bool-cases (i == x)) [
    | inl same ↦ rw same e
    | inr other ↦ rw other (h x lt)
  ]

  -- A store just behind what the arrays agree on.
  pub update-Agree_next :
      (n : ℕ) (v w : A) (a b : Array A)
      → v ≡ w
      → Agree n a b
      → Agree (suc n) (update a n v) (update b n w)
  update-Agree_next n v w a b e h x lt = elim (Bool-cases (n == x)) [
    | inl same ↦ rw same e
    | inr other ↦ rw other (h x (ground (arith, other)))
  ]
