-- ===== src/Dsp/Demod/Angle.antt =====
-- `fast_atan2` where its products fit an `int`, and beyond.
use rtl_ais_android.Base.{ℕ, suc, ◌+◌, ◌-◌, ◌*◌, ◌≤◌, ◌<◌, ◌≡◌, arith, ◌&&◌, true, false, ap, ◌∙◌}
use native.Mathlib.Nat.{mul-div_cancel}
use rtl_ais_android.Base.Int.{
  ℤ, pos, negsuc, pos_part, neg_part, ◌+ℤ◌, ◌-ℤ◌, neg, scale, div, quot, ltb_ℤ, is_zero, to_int32,
  to_int32_fits, to_int32_wraps, div-nonpos, int_laws, sub_ℕ, sub_ℕ_parts, ◌≤ℤ◌,
}
use rtl_ais_android.Dsp.Demod.{fast_atan2, pi4}

-- 4096 * (a - b) / (a + b), exactly.
abbrev pub ratio : ℕ → ℕ → ℤ
ratio a b = div (sub_ℕ (4096 * a) (4096 * b)) (a + b)

-- The angle of the point with ordinate b, from 0 to a half turn.
abbrev pub upper_angle : ℤ → ℕ → ℤ
upper_angle (pos a) b = pos 4096 -ℤ ratio a b
upper_angle (negsuc n) b = pos 12288 -ℤ ratio b (suc n)

quotient_fits :
    (u v : ℤ) (a b : ℕ)
    → a + b ≤ 524287
    → u ≡ sub_ℕ a b
    → v ≡ pos (a + b)
    → quot (to_int32 (scale pi4 (to_int32 u))) (to_int32 v) ≡ ratio a b
unfolding quot
quotient_fits u v a b small p q =
    let parts = sub_ℕ_parts a b in
    let inner : to_int32 (sub_ℕ a b) ≡ sub_ℕ a b =
      to_int32_fits (sub_ℕ a b) (omega arith) (omega arith) in
    let sum : to_int32 (pos (a + b)) ≡ pos (a + b) =
      to_int32_fits (pos (a + b)) (omega arith) (omega arith) in
    let scaled : scale pi4 (sub_ℕ a b) ≡ sub_ℕ (4096 * a) (4096 * b) =
      omega (int_laws, sub_ℕ_parts (4096 * a) (4096 * b)) in
    let parts' = sub_ℕ_parts (4096 * a) (4096 * b) in
    let outer : to_int32 (sub_ℕ (4096 * a) (4096 * b)) ≡ sub_ℕ (4096 * a) (4096 * b) =
      to_int32_fits (sub_ℕ (4096 * a) (4096 * b)) (omega arith) (omega arith) in
    rw (p, q, inner, sum, scaled, outer)

not_both_zero : (a b : ℕ) → 0 < a + b → (is_zero (pos a) && is_zero (pos b)) ≡ false
not_both_zero a b some = ground arith

not_zero : (a n : ℕ) → (is_zero (pos a) && is_zero (negsuc n)) ≡ false
not_zero a n = ground arith

pos-not_neg : (a : ℕ) → ltb_ℤ (pos a) (pos 0) ≡ false
pos-not_neg a = ground arith

negsuc-is_neg : (n : ℕ) → ltb_ℤ (negsuc n) (pos 0) ≡ true
negsuc-is_neg n = ground arith

-- The angle of a point in the upper half plane, whose ordinate is not the origin's.
fast_atan2_upper :
    (x : ℤ) (b : ℕ)
    → 0 < pos_part x + neg_part x + b
    → pos_part x + neg_part x + b ≤ 524287
    → fast_atan2 (pos b) x ≡ upper_angle x b
unfolding fast_atan2
fast_atan2_upper (pos a) b some small =
    let fits =
      quotient_fits (pos a -ℤ pos b) (pos a +ℤ pos b) a b (omega arith)
        (omega (int_laws, sub_ℕ_parts a b)) (omega int_laws) in
    rw (not_both_zero a b (omega arith), pos-not_neg b, pos-not_neg a, fits)
fast_atan2_upper (negsuc n) b some small =
    let fits =
      quotient_fits (negsuc n +ℤ pos b) (pos b -ℤ negsuc n) b (suc n) (omega arith)
        (omega (int_laws, sub_ℕ_parts b (suc n))) (omega int_laws) in
    rw (pos-not_neg b, negsuc-is_neg n, fits)

-- The lower half plane mirrors the upper one.
fast_atan2_lower :
    (x : ℤ) (n : ℕ)
    → pos_part x + neg_part x + suc n ≤ 524287
    → fast_atan2 (negsuc n) x ≡ neg (upper_angle x (suc n))
unfolding fast_atan2
fast_atan2_lower (pos a) n small =
    let flip : neg (negsuc n) ≡ pos (suc n) = omega int_laws in
    let abs : to_int32 (pos (suc n)) ≡ pos (suc n) =
      to_int32_fits (pos (suc n)) (omega arith) (omega arith) in
    let fits =
      quotient_fits (pos a -ℤ pos (suc n)) (pos a +ℤ pos (suc n)) a (suc n) (omega arith)
        (omega (int_laws, sub_ℕ_parts a (suc n))) (omega int_laws) in
    rw (not_zero a n, negsuc-is_neg n, flip, abs, pos-not_neg a, fits)
fast_atan2_lower (negsuc m) n small =
    let flip : neg (negsuc n) ≡ pos (suc n) = omega int_laws in
    let abs : to_int32 (pos (suc n)) ≡ pos (suc n) =
      to_int32_fits (pos (suc n)) (omega arith) (omega arith) in
    let fits =
      quotient_fits (negsuc m +ℤ pos (suc n)) (pos (suc n) -ℤ negsuc m) (suc n) (suc m)
        (omega arith) (omega (int_laws, sub_ℕ_parts (suc n) (suc m))) (omega int_laws) in
    rw (negsuc-is_neg n, flip, abs, negsuc-is_neg m, fits)

-- 0 ≤ angle ≤ 16384, and a quarter turn tells the sign of the abscissa.
record IsUpper (x angle : ℤ) : Type 0 where
  pub nonneg : pos 0 ≤ℤ angle
  pub half_turn : angle ≤ℤ pos 16384
  pub right : pos 0 ≤ℤ x → angle ≤ℤ pos 8192
  pub left : x ≤ℤ negsuc 0 → pos 8192 ≤ℤ angle

module _ (n : ℕ) where
  ratio_right : ratio (suc n) 0 ≡ pos 4096
  unfolding div
  ratio_right =
      let whole : sub_ℕ (4096 * suc n) (4096 * 0) ≡ pos (4096 * suc n) =
        omega (int_laws, sub_ℕ_parts (4096 * suc n) (4096 * 0)) in
      let same : suc n + 0 ≡ suc n = omega arith in
      rw (whole, same, mul-div_cancel 4096 {n = suc n} (omega arith))

  ratio_diagonal : ratio (suc n) (suc n) ≡ pos 0
  unfolding div
  ratio_diagonal =
      let whole : sub_ℕ (4096 * suc n) (4096 * suc n) ≡ pos 0 =
        omega (int_laws, sub_ℕ_parts (4096 * suc n) (4096 * suc n)) in
      rw whole (ap pos (omega arith))

  ratio_up : ratio 0 (suc n) ≡ negsuc 4095
  unfolding div
  ratio_up =
      let whole : sub_ℕ (4096 * 0) (4096 * suc n) ≡ negsuc (4096 * suc n - 1) =
        omega (int_laws, sub_ℕ_parts (4096 * 0) (4096 * suc n)) in
      let same : 0 + suc n ≡ suc n = omega arith in
      let back : suc (4096 * suc n - 1) ≡ 4096 * suc n = omega arith in
      rw (whole, same, back, mul-div_cancel 4096 {n = suc n} (omega arith))

-- `fast_atan2` is exact at the eight multiples of an eighth of a turn (4096): for every n from 1 to
-- 262143, at the four points on the axes and the four on the diagonals.
pub fast_atan2_eighths :
    (n : ℕ)
    → n ≤ 262142
    → let p = pos (suc n) in
      let m = negsuc n in
      (fast_atan2 (pos 0) p ≡ pos 0)
      × (fast_atan2 p p ≡ pos 4096)
      × (fast_atan2 p (pos 0) ≡ pos 8192)
      × (fast_atan2 p m ≡ pos 12288)
      × (fast_atan2 (pos 0) m ≡ pos 16384)
      × (fast_atan2 m m ≡ neg (pos 12288))
      × (fast_atan2 m (pos 0) ≡ neg (pos 8192))
      × (fast_atan2 m p ≡ neg (pos 4096))
fast_atan2_eighths n small = (
  fast_atan2_upper p 0 (omega arith) (omega arith) ∙ rw ratio_right right,
  fast_atan2_upper p (suc n) (omega arith) (omega arith) ∙ rw ratio_diagonal (omega int_laws),
  fast_atan2_upper (pos 0) (suc n) (omega arith) (omega arith) ∙ rw ratio_up (omega int_laws),
  fast_atan2_upper m (suc n) (omega arith) (omega arith) ∙ rw ratio_diagonal (omega int_laws),
  fast_atan2_upper m 0 (omega arith) (omega arith) ∙ rw ratio_up (omega int_laws),
  fast_atan2_lower m n (omega arith) ∙ rw ratio_diagonal (omega int_laws),
  fast_atan2_lower (pos 0) n (omega arith) ∙ rw ratio_up (omega int_laws),
  fast_atan2_lower p n (omega arith) ∙ rw ratio_diagonal (omega int_laws),
)
  where
    p : ℤ
    p = pos (suc n)

    m : ℤ
    m = negsuc n

    right : pos 4096 -ℤ pos 4096 ≡ pos 0
    right = omega int_laws

-- Beyond that bound the product by 4096 leaves the range of `int`: where it wraps, every point from
-- (524288, 0) to (1048575, 0), whose angle is 0, gets an angle of an eighth of a turn or more.
pub fast_atan2_overflows :
    (n : ℕ) → 524288 ≤ n → n ≤ 1048575 → pos 4096 ≤ℤ fast_atan2 (pos 0) (pos n)
unfolding fast_atan2 quot
fast_atan2_overflows n lo hi =
    let difference : pos n -ℤ pos 0 ≡ pos n = omega int_laws in
    let sum : pos n +ℤ pos 0 ≡ pos n = omega int_laws in
    let same : to_int32 (pos n) ≡ pos n = to_int32_fits (pos n) (omega arith) (omega arith) in
    let product : scale pi4 (pos n) ≡ pos (4096 * n) = omega int_laws in
    let wrapped = to_int32_wraps (4096 * n) (omega arith) (omega arith) in
    let quotient = div-nonpos (4294967295 - 4096 * n) n in
    rw (not_both_zero n 0 (omega arith), pos-not_neg n, difference, sum, same, product, wrapped)
      (omega int_laws)
