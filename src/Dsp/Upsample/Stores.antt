-- ===== src/Dsp/Upsample/Stores.antt =====
-- Where the interpolation stores.
use rtl_ais_android.Base.{
  ℕ, zero, suc, ◌+◌, ◌≤◌, ◌<◌, ◌≡◌, refl, ◌∙◌, arith, ltb, ltb→lt, leb, ◌&&◌, Array, update_ne,
  Bool-cases, inl, inr,
}
use rtl_ais_android.Base.Int.{ℤ}
use rtl_ais_android.Dsp.Upsample.{
  Walk, walk_round, walk_loop, arbitrary_upsample, outputs, upsampled,
}

module _ (mix : ℕ → ℕ → ℤ → ℤ → ℤ) (buf1 : Array ℤ) (len1 len2 : ℕ) where
  round-beyond :
      (w : Walk) (x : ℕ)
      → w.j < len2
      → len2 ≤ x
      → (walk_round mix buf1 len1 len2 w).buf2 x ≡ w.buf2 x
  unfolding walk_round
  round-beyond w x lt ge = update_ne w.buf2 w.j x _ (omega arith)

  loop-beyond :
      (fuel : ℕ) (w : Walk) (buf2 : Array ℤ) (x : ℕ)
      → len2 ≤ x
      → w.buf2 x ≡ buf2 x
      → outputs (walk_loop mix buf1 len1 len2 fuel w) buf2 x ≡ buf2 x
  unfolding walk_loop
  loop-beyond zero w buf2 x ge e = refl
  loop-beyond (suc fuel) w buf2 x ge e = elim (Bool-cases (ltb w.j len2)) [
    | inr over ↦ rw (over, walk_loop) e
    | inl more ↦ elim (Bool-cases (leb 1 w.i && ltb w.i len1)) [
      | inr bad ↦ rw (more, bad, walk_loop) refl
      | inl reads ↦
          rw (more, reads, walk_loop)
            (loop-beyond fuel (walk_round mix buf1 len1 len2 w) buf2 x ge
              (round-beyond w x (ltb→lt w.j len2 more) ge ∙ e))
    ]
  ]

  -- Whatever the lengths, nothing is stored beyond the outputs.
  pub upsampled_beyond :
      (buf2 : Array ℤ) (x : ℕ) → len2 ≤ x → upsampled mix buf1 buf2 len1 len2 x ≡ buf2 x
  unfolding upsampled arbitrary_upsample
  upsampled_beyond buf2 x ge =
      loop-beyond (len2 + 1) (record { i = 1; j = 0; tick = 0; buf2 = buf2 }) buf2 x ge refl
