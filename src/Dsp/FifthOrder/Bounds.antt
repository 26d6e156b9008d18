-- ===== src/Dsp/FifthOrder/Bounds.antt =====
-- How far `fifth_order` can raise the level, and when its 16-bit store is exact.
use rtl_ais_android.Base.{
  ℕ, ◌+◌, ◌*◌, ◌≤◌, ◌<◌, ◌≡◌, ◌∙◌, inl, inr, arith, Array, zero, suc, ltb, ltb→lt, ltb→le,
  Bool-cases,
}
use rtl_ais_android.Base.Int.{ℤ, ◌+ℤ◌, scale, shr, Within, int_laws, shr4_floor, to_int16_fits}
use rtl_ais_android.Dsp.FifthOrder.{Taps, weigh, fifth_order}
use rtl_ais_android.Dsp.FifthOrder.Window.{stream, window, IsDecimated, fifth_order-IsDecimated}

-- Every tap has magnitude at most `b`.
pub record TapsWithin (b : ℕ) (t : Taps) : Type 0 where
  pub a : Within b t.a
  pub b' : Within b t.b
  pub c : Within b t.c
  pub d : Within b t.d
  pub e : Within b t.e
  pub f : Within b t.f

abbrev pub weighed_sum : Taps → ℤ
weighed_sum t = t.a +ℤ scale 5 (t.b +ℤ t.e) +ℤ scale 10 (t.c +ℤ t.d) +ℤ t.f

weighed_sum-Within : (b : ℕ) (t : Taps) → TapsWithin b t → Within (32 * b) (weighed_sum t)
weighed_sum-Within b t h =
    let (w1, w2) = h.a in
    let (w3, w4) = h.b' in
    let (w5, w6) = h.c in
    let (w7, w8) = h.d in
    let (w9, w10) = h.e in let (w11, w12) = h.f in (omega int_laws, omega int_laws)

shr4-Within : (b : ℕ) (z : ℤ) → Within (32 * b) z → Within (2 * b) (shr 4 z)
shr4-Within b z h = (omega (arith, shr4_floor z), omega (arith, shr4_floor z))

weigh_exact : (b : ℕ) (t : Taps) → 2 * b ≤ 32767 → TapsWithin b t → weigh t ≡ shr 4 (weighed_sum t)
unfolding weigh
weigh_exact b t small h =
    let w = shr4-Within b (weighed_sum t) (weighed_sum-Within b t h) in
    to_int16_fits (shr 4 (weighed_sum t)) (omega arith) (omega arith)

pub weigh-Within : (b : ℕ) (t : Taps) → 2 * b ≤ 32767 → TapsWithin b t → Within (2 * b) (weigh t)
weigh-Within b t small h =
    rw (weigh_exact b t small h) (shr4-Within b (weighed_sum t) (weighed_sum-Within b t h))

-- The level of a block: every value of the half from `p` on is within `b`.
abbrev pub BlockWithin : ℕ → ℕ → Array ℤ → Type 0
BlockWithin b p buf = (n : ℕ) → Within b (buf (p + 2 * n))

module _ (b p length : ℕ) (hist : Taps) (buf : Array ℤ) (hw : TapsWithin b hist)
    (bw : BlockWithin b p buf) where
  stream-Within : (n : ℕ) → Within b (stream p hist buf n)
  stream-Within zero = hw.b'
  stream-Within (suc zero) = hw.c
  stream-Within (suc (suc zero)) = hw.d
  stream-Within (suc (suc (suc zero))) = hw.e
  stream-Within (suc (suc (suc (suc zero)))) = hw.f
  stream-Within (suc (suc (suc (suc (suc n))))) = bw n

  window-TapsWithin : (n : ℕ) → TapsWithin b (window (stream p hist buf) n)
  window-TapsWithin n = record {
    a = stream-Within n;
    b' = stream-Within (suc n);
    c = stream-Within (suc (suc n));
    d = stream-Within (suc (suc (suc n)));
    e = stream-Within (suc (suc (suc (suc n))));
    f = stream-Within (suc (suc (suc (suc (suc n)))));
  }

  -- One call at most doubles the level: from a history and a block within `b`, where `2 * b` fits
  -- an int16_t, all that `fifth_order` leaves in its half of the block is within `2 * b`, each
  -- stored value is the weighed sum shifted down with nothing cut off, and the history it
  -- leaves is within `b` again.
  pub fifth_order-Within :
      2 * b ≤ 32767
      → 0 < length
      → let r = fifth_order p length hist buf in
        BlockWithin (2 * b) p r.buf
        × ((k : ℕ)
            → 4 * k < length
            → r.buf (p + 2 * k) ≡ shr 4 (weighed_sum (window (stream p hist buf) (2 * k))))
        × TapsWithin b r.taps
  fifth_order-Within small some_data = (level, exact, rw done.archived (window-TapsWithin _))
    where
      done : IsDecimated p length hist buf (fifth_order p length hist buf)
      done = fifth_order-IsDecimated p length hist buf some_data

      exact :
          (k : ℕ)
          → 4 * k < length
          → (fifth_order p length hist buf).buf (p + 2 * k)
            ≡ shr 4 (weighed_sum (window (stream p hist buf) (2 * k)))
      exact k lt = done.stored k lt ∙ weigh_exact b _ small (window-TapsWithin (2 * k))

      level : BlockWithin (2 * b) p (fifth_order p length hist buf).buf
      level n = elim (Bool-cases (ltb (4 * n) length)) [
        | inl lt ↦
            rw (done.stored n (ltb→lt _ _ lt)) (weigh-Within b _ small (window-TapsWithin (2 * n)))
        | inr ge ↦
            rw (done.untouched (p + 2 * n) (λ k below e. absurd (omega (arith, ltb→le _ _ ge))))
              (let (lo, hi) = bw n in (omega arith, omega arith))
      ]
