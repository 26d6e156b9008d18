-- ===== src/Dsp/Rotate/Laws.antt =====
-- What the loops of `rotate_90` and `rotate_m90` compute, value by value.
use rtl_ais_android.Base.{
  ℕ, zero, suc, ◌⊎◌, ◌+◌, ◌-◌, ◌*◌, ◌/◌, ◌%◌, ◌≤◌, ◌<◌, ◌≡◌, arith, ltb, ◌==◌, if◌then◌else◌,
}
use rtl_ais_android.Base.Int.{ℤ}
use rtl_ais_android.Base.Loop.{for_loop, for_loop_inv}
use rtl_ais_android.Dsp.Rotate.{
  Samples, neg16, rotate_90_body, rotate_m90_body, rotate_90, rotate_m90,
}

-- Sample k is the pair at 2k and 2k + 1. By the remainder of the index:
abbrev pub turned_90 : Samples → ℕ → ℤ
turned_90 buf j =
    let k = j % 8 in
    if k == 2
    then neg16 (buf (j + 1))
    else if k == 3
    then buf (j - 1)
    else if k == 4
    then neg16 (buf j)
    else if k == 5
    then neg16 (buf j)
    else if k == 6
    then buf (j + 1)
    else if k == 7
    then neg16 (buf (j - 1))
    else buf j

abbrev pub turned_m90 : Samples → ℕ → ℤ
turned_m90 buf j =
    let k = j % 8 in
    if k == 2
    then buf (j + 1)
    else if k == 3
    then neg16 (buf (j - 1))
    else if k == 4
    then neg16 (buf j)
    else if k == 5
    then neg16 (buf j)
    else if k == 6
    then neg16 (buf (j + 1))
    else if k == 7
    then buf (j - 1)
    else buf j

-- The rounds cover whole groups of eight values.
abbrev pub covered : ℕ → ℕ
covered len = (len + 7) / 8 * 8

-- A statement about the eight offsets of a round.
by_offset {ℓ} :
    (P : ℕ → Type ℓ) → P 0 → P 1 → P 2 → P 3 → P 4 → P 5 → P 6 → P 7 → (r : ℕ) → r < 8 → P r
by_offset P a b c d e f g h zero lt = a
by_offset P a b c d e f g h (suc zero) lt = b
by_offset P a b c d e f g h (suc (suc zero)) lt = c
by_offset P a b c d e f g h (suc (suc (suc zero))) lt = d
by_offset P a b c d e f g h (suc (suc (suc (suc zero)))) lt = e
by_offset P a b c d e f g h (suc (suc (suc (suc (suc zero))))) lt = f
by_offset P a b c d e f g h (suc (suc (suc (suc (suc (suc zero)))))) lt = g
by_offset P a b c d e f g h (suc (suc (suc (suc (suc (suc (suc zero))))))) lt = h
by_offset P a b c d e f g h (suc (suc (suc (suc (suc (suc (suc (suc r)))))))) lt =
    absurd (omega arith)

-- A round computes `turned` on its eight values and leaves the others alone; `turned` reads only
-- values of the same round.
record IsRound (body : ℕ → Samples → Samples) (turned : Samples → ℕ → ℤ) : Type 0 where
  pub at_offset :
      (s : Samples) (i : ℕ) → i % 8 ≡ 0 → (r : ℕ) → r < 8 → body i s (i + r) ≡ turned s (i + r)
  pub outside : (s : Samples) (i j : ℕ) → (j < i) ⊎ (i + 8 ≤ j) → body i s j ≡ s j
  pub local_read :
      (s buf : Samples) (i j : ℕ)
      → i % 8 ≡ 0
      → i ≤ j
      → ((n : ℕ) → i ≤ n → s n ≡ buf n)
      → turned s j ≡ turned buf j

rotate_90_body-IsRound : IsRound rotate_90_body turned_90
unfolding rotate_90_body
rotate_90_body-IsRound = record {
  at_offset = λ s i h.
      by_offset (λ r. rotate_90_body i s (i + r) ≡ turned_90 s (i + r)) (ground arith)
        (ground arith) (ground arith) (ground arith) (ground arith) (ground arith) (ground arith)
        (ground arith);
  outside = λ s i j out. ground arith;
  local_read = λ s buf i j h le same. ground (arith, same j, same (j + 1), same (j - 1));
}

rotate_m90_body-IsRound : IsRound rotate_m90_body turned_m90
unfolding rotate_m90_body
rotate_m90_body-IsRound = record {
  at_offset = λ s i h.
      by_offset (λ r. rotate_m90_body i s (i + r) ≡ turned_m90 s (i + r)) (ground arith)
        (ground arith) (ground arith) (ground arith) (ground arith) (ground arith) (ground arith)
        (ground arith);
  outside = λ s i j out. ground arith;
  local_read = λ s buf i j h le same. ground (arith, same j, same (j + 1), same (j - 1));
}

module _ (body : ℕ → Samples → Samples) (turned : Samples → ℕ → ℤ) (round : IsRound body turned)
    (buf : Samples) (len : ℕ) where
  -- Before the round at `i`: the values below `i` are turned, the rest is as it was.
  abbrev Rotated : ℕ → Samples → Type 0
  Rotated i s =
      (i % 8 ≡ 0) × (i < len + 8) × ((j : ℕ) → s j ≡ (if ltb j i then turned buf j else buf j))

  round-inside : (s : Samples) (i j : ℕ) → i % 8 ≡ 0 → i ≤ j → j < i + 8 → body i s j ≡ turned s j
  round-inside s i j h le lt =
      let e : i + (j - i) ≡ j = omega arith in rw e at (round.at_offset s i h (j - i) (omega arith))

  round-Rotated : (i : ℕ) (s : Samples) → i < len → Rotated i s → Rotated (i + 8) (body i s)
  round-Rotated i s lt h = (
    omega arith,
    omega arith,
    λ j. ground (
      arith,
      round-inside s i j h.0,
      round.outside s i j,
      round.local_read s buf i j h.0,
      h.2 j,
      rest,
    ),
  )
    where
      rest : (n : ℕ) → i ≤ n → s n ≡ buf n
      rest n p = ground (arith, h.2 n)

  loop_lem :
      (j : ℕ) → for_loop 0 8 len body buf j ≡ (if ltb j (covered len) then turned buf j else buf j)
  loop_lem j =
      let (last, past, done) =
        for_loop_inv Rotated 8 len body (omega arith) round-Rotated 0 buf
          (omega arith, omega arith, λ n. ground arith) in
      let e : covered len ≡ last = omega arith in rw e (done.2 j)

pub rotate_90_lem :
    (buf : Samples) (len j : ℕ)
    → rotate_90 buf len j ≡ (if ltb j (covered len) then turned_90 buf j else buf j)
unfolding rotate_90
rotate_90_lem = loop_lem rotate_90_body turned_90 rotate_90_body-IsRound

pub rotate_m90_lem :
    (buf : Samples) (len j : ℕ)
    → rotate_m90 buf len j ≡ (if ltb j (covered len) then turned_m90 buf j else buf j)
unfolding rotate_m90
rotate_m90_lem = loop_lem rotate_m90_body turned_m90 rotate_m90_body-IsRound
