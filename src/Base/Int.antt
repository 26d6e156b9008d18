-- ===== src/Base/Int.antt =====
-- C's signed integers over the native numbers: exact integers, the wrap of a conversion to a
-- narrower type, and the shift and division of C.
use Prim.Native.Nat.{ℕ, suc, ◌+◌, ◌-◌, ◌*◌, ◌/◌, ◌%◌, ◌^◌, ◌≤◌, ◌<◌}
use mathlib.Core.Path.{◌≡◌, refl}
use mathlib.Core.Logic.{◌⊎◌}
use mathlib.Core.Bool.{Bool, false}
use native.Mathlib.Omega.{arith}
use native.Mathlib.Nat.{mul-le-mul, div-le_of_le-mul, mul_comm}
use rtl_ais_android.Base.Tests.{ltb, leb, if◌then◌else◌}

-- `negsuc n` is -(n + 1).
pub data ℤ : Type 0 where
  pos : ℕ → ℤ
  negsuc : ℕ → ℤ

abbrev pub pos_part : ℤ → ℕ
pos_part (pos n) = n
pos_part (negsuc n) = 0

abbrev pub neg_part : ℤ → ℕ
neg_part (pos n) = 0
neg_part (negsuc n) = suc n

-- a - b, as an integer.
abbrev pub sub_ℕ : ℕ → ℕ → ℤ
sub_ℕ a b = if leb b a then pos (a - b) else negsuc (b - a - 1)

infixl 65 ◌+ℤ◌ ◌-ℤ◌
infixl 70 ◌*ℤ◌
infix 50 ◌≤ℤ◌
unfoldable pub ◌+ℤ◌ : ℤ → ℤ → ℤ
a +ℤ b = sub_ℕ (pos_part a + pos_part b) (neg_part a + neg_part b)

unfoldable pub ◌-ℤ◌ : ℤ → ℤ → ℤ
a -ℤ b = sub_ℕ (pos_part a + neg_part b) (neg_part a + pos_part b)

unfoldable pub ◌*ℤ◌ : ℤ → ℤ → ℤ
a *ℤ b =
    sub_ℕ (pos_part a * pos_part b + neg_part a * neg_part b)
      (pos_part a * neg_part b + neg_part a * pos_part b)

unfoldable pub neg : ℤ → ℤ
neg a = sub_ℕ (neg_part a) (pos_part a)

-- k * z for a constant k.
unfoldable pub scale : ℕ → ℤ → ℤ
scale k z = sub_ℕ (k * pos_part z) (k * neg_part z)

abbrev pub ◌≤ℤ◌ : ℤ → ℤ → Type 0
a ≤ℤ b = pos_part a + neg_part b ≤ pos_part b + neg_part a

abbrev pub ltb_ℤ : ℤ → ℤ → Bool
ltb_ℤ a b = ltb (pos_part a + neg_part b) (pos_part b + neg_part a)

-- z == 0
abbrev pub is_zero : ℤ → Bool
is_zero (pos n) = leb n 0
is_zero (negsuc n) = false

unfoldable pub abs : ℤ → ℕ
abs z = pos_part z + neg_part z

-- `>>` on a signed integer shifts arithmetically: it divides by 2 ^ k and rounds down.
unfoldable pub shr : ℕ → ℤ → ℤ
shr k (pos n) = pos (n / 2 ^ k)
shr k (negsuc n) = negsuc (n / 2 ^ k)

-- `/` by a positive divisor truncates toward zero.
unfoldable pub div : ℤ → ℕ → ℤ
div (pos n) d = pos (n / d)
div (negsuc n) d = sub_ℕ 0 (suc n / d)

-- `/` truncates toward zero for either sign of the divisor. C leaves a zero divisor undefined.
unfoldable pub quot : ℤ → ℤ → ℤ
unfolding div
quot a (pos d) = div a d
quot a (negsuc d) = neg (div a (suc d))

-- The value of the low `m` bits read as a signed number, for `m = 2 ^ w` and `h = 2 ^ (w - 1)`.
abbrev pub wrap : ℕ → ℕ → ℤ → ℤ
wrap m h (pos n) = let r = n % m in if ltb r h then pos r else negsuc (m - 1 - r)
wrap m h (negsuc n) = let r = m - 1 - n % m in if ltb r h then pos r else negsuc (m - 1 - r)

-- `(int16_t)z` and the wrap of a 32-bit sum.
unfoldable pub to_int16 : ℤ → ℤ
to_int16 z = wrap 65536 32768 z

unfoldable pub to_int32 : ℤ → ℤ
to_int32 z = wrap 4294967296 2147483648 z

-- |z| ≤ b, in the form that `omega` reads.
abbrev pub Within : ℕ → ℤ → Type 0
Within b z = (pos_part z ≤ neg_part z + b) × (neg_part z ≤ pos_part z + b)

pub +ℤ_parts :
    (a b : ℤ)
    → pos_part (a +ℤ b) + neg_part a + neg_part b ≡ neg_part (a +ℤ b) + pos_part a + pos_part b
unfolding ◌+ℤ◌
+ℤ_parts a b = ground arith

pub -ℤ_parts :
    (a b : ℤ)
    → pos_part (a -ℤ b) + neg_part a + pos_part b ≡ neg_part (a -ℤ b) + pos_part a + neg_part b
unfolding ◌-ℤ◌
-ℤ_parts a b = ground arith

pub neg_parts : (a : ℤ) → pos_part (neg a) + pos_part a ≡ neg_part (neg a) + neg_part a
unfolding neg
neg_parts a = ground arith

pub scale_parts :
    (k : ℕ) (a : ℤ) → pos_part (scale k a) + k * neg_part a ≡ neg_part (scale k a) + k * pos_part a
unfolding scale
scale_parts k a = ground arith

pub parts_disjoint : (a : ℤ) → (pos_part a ≡ 0) ⊎ (neg_part a ≡ 0)
parts_disjoint a = ground arith

pub eq_of_parts : (a b : ℤ) → pos_part a + neg_part b ≡ pos_part b + neg_part a → a ≡ b
eq_of_parts a b h = ground arith

pub ruleset int_laws = (arith, +ℤ_parts, -ℤ_parts, neg_parts, scale_parts, eq_of_parts)

pub sub_ℕ_parts : (x y : ℕ) → pos_part (sub_ℕ x y) + y ≡ neg_part (sub_ℕ x y) + x
sub_ℕ_parts x y = ground arith

pub *ℤ_parts :
    (a b : ℤ)
    → pos_part (a *ℤ b) + (pos_part a * neg_part b + neg_part a * pos_part b)
      ≡ neg_part (a *ℤ b) + (pos_part a * pos_part b + neg_part a * neg_part b)
unfolding ◌*ℤ◌
*ℤ_parts a b = sub_ℕ_parts _ _

pub mul_mono : (x y m n : ℕ) → x ≤ m → y ≤ n → x * y ≤ m * n
mul_mono x y m n h k = mul-le-mul h k

-- |a * b| ≤ m * n.
pub *ℤ-Within : (m n : ℕ) (a b : ℤ) → Within m a → Within n b → Within (m * n) (a *ℤ b)
*ℤ-Within m n (pos x) (pos y) h k =
    let le = mul_mono x y m n (omega arith) (omega arith) in
    let parts = *ℤ_parts (pos x) (pos y) in (omega arith, omega arith)
*ℤ-Within m n (pos x) (negsuc y) h k =
    let le = mul_mono x (suc y) m n (omega arith) (omega arith) in
    let parts = *ℤ_parts (pos x) (negsuc y) in (omega arith, omega arith)
*ℤ-Within m n (negsuc x) (pos y) h k =
    let le = mul_mono (suc x) y m n (omega arith) (omega arith) in
    let parts = *ℤ_parts (negsuc x) (pos y) in (omega arith, omega arith)
*ℤ-Within m n (negsuc x) (negsuc y) h k =
    let le = mul_mono (suc x) (suc y) m n (omega arith) (omega arith) in
    let parts = *ℤ_parts (negsuc x) (negsuc y) in (omega arith, omega arith)

pub sub_ℕ-Within : (b x y : ℕ) → x ≤ y + b → y ≤ x + b → Within b (sub_ℕ x y)
sub_ℕ-Within b x y h k = let parts = sub_ℕ_parts x y in (omega arith, omega arith)

-- |z / d| ≤ m where |z| ≤ m * d.
pub div-Within : (m d : ℕ) (z : ℤ) → Within (m * d) z → Within m (div z d)
unfolding div
div-Within m d (pos n) h =
    let le : n / d ≤ m = div-le_of_le-mul d (omega (arith, mul_comm m d)) in
    (omega arith, omega arith)
div-Within m d (negsuc n) h =
    let le : suc n / d ≤ m = div-le_of_le-mul d (omega (arith, mul_comm m d)) in
    sub_ℕ-Within m 0 (suc n / d) (omega arith) (omega arith)

-- The shift is the floor of z / 2 ^ 4, and of z / 2 ^ 15.
pub shr4_floor :
    (z : ℤ)
    → (16 * pos_part (shr 4 z) + neg_part z ≤ 16 * neg_part (shr 4 z) + pos_part z)
      × (pos_part z + 16 * neg_part (shr 4 z) < 16 * pos_part (shr 4 z) + neg_part z + 16)
unfolding shr
shr4_floor (pos n) = omega arith
shr4_floor (negsuc n) = omega arith

pub shr15_floor :
    (z : ℤ)
    → (32768 * pos_part (shr 15 z) + neg_part z ≤ 32768 * neg_part (shr 15 z) + pos_part z)
      × (pos_part z + 32768 * neg_part (shr 15 z)
          < 32768 * pos_part (shr 15 z) + neg_part z + 32768)
unfolding shr
shr15_floor (pos n) = omega arith
shr15_floor (negsuc n) = omega arith

-- A conversion keeps a value that fits.
pub to_int16_fits : (z : ℤ) → negsuc 32767 ≤ℤ z → z ≤ℤ pos 32767 → to_int16 z ≡ z
unfolding to_int16
to_int16_fits (pos n) lo hi = ground arith
to_int16_fits (negsuc n) lo hi = ground arith

pub to_int32_fits : (z : ℤ) → negsuc 2147483647 ≤ℤ z → z ≤ℤ pos 2147483647 → to_int32 z ≡ z
unfolding to_int32
to_int32_fits (pos n) lo hi = ground arith
to_int32_fits (negsuc n) lo hi = ground arith

-- The upper half of the unsigned range comes out negative.
pub to_int32_wraps :
    (n : ℕ) → 2147483648 ≤ n → n < 4294967296 → to_int32 (pos n) ≡ negsuc (4294967295 - n)
unfolding to_int32
to_int32_wraps n lo hi = ground arith

pub div-nonpos : (n d : ℕ) → div (negsuc n) d ≤ℤ pos 0
unfolding div
div-nonpos n d = omega (arith, sub_ℕ_parts 0 (suc n / d))

-- What a conversion yields fits the type.
pub to_int16_range : (z : ℤ) → (negsuc 32767 ≤ℤ to_int16 z) × (to_int16 z ≤ℤ pos 32767)
unfolding to_int16
to_int16_range (pos n) = ground arith
to_int16_range (negsuc n) = ground arith

-- Negating twice, and the signs of a conversion.
pub neg-neg : (z : ℤ) → neg (neg z) ≡ z
neg-neg z = omega int_laws

wraps : to_int16 (pos 32768) ≡ negsuc 32767
unfolding to_int16
wraps = refl

wraps_down : to_int16 (negsuc 32768) ≡ pos 32767
unfolding to_int16
wraps_down = refl

shifts_down : shr 4 (negsuc 0) ≡ negsuc 0
unfolding shr
shifts_down = refl

divides : div (negsuc 6) 2 ≡ negsuc 2
unfolding div
divides = refl
