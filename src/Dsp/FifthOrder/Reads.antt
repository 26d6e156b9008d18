-- ===== src/Dsp/FifthOrder/Reads.antt =====
-- What `fifth_order` reads: its history, and the block up to its length.
use rtl_ais_android.Base.{
  ℕ, ◌+◌, ◌-◌, ◌/◌, ◌≤◌, ◌<◌, ◌≡◌, refl, ap, arith, Array, Agree, update-Agree,
}
use rtl_ais_android.Base.Int.{ℤ}
use rtl_ais_android.Base.Loop.{for_loop_rel}
use rtl_ais_android.Dsp.FifthOrder.{Taps, weigh, shift, Pass, round, first_taps, fifth_order}

module _ (p length n : ℕ) (inside : p + length ≤ n) where
  abbrev pub SamePass : Pass → Pass → Type 0
  SamePass s t = (s.taps ≡ t.taps) × Agree n s.buf t.buf

  round-SamePass :
      (i : ℕ) (s t : Pass) → i < length → SamePass s t → SamePass (round p i s) (round p i t)
  unfolding round
  round-SamePass i s t lt (taps, same) =
      let older = same (p + i - 2) (omega (arith, inside)) in
      let newer = same (p + i) (omega (arith, inside)) in
      let e : shift s.taps (s.buf (p + i - 2)) (s.buf (p + i))
          ≡ shift t.taps (t.buf (p + i - 2)) (t.buf (p + i)) =
        rw (taps, older, newer) refl in
      (e, update-Agree n (p + i / 2) _ _ s.buf t.buf (ap weigh e) same)

  pub fifth_order-SamePass :
      (hist : Taps) (a b : Array ℤ)
      → 0 < length
      → Agree n a b
      → SamePass (fifth_order p length hist a) (fifth_order p length hist b)
  unfolding fifth_order
  fifth_order-SamePass hist a b some_data same =
      let e : first_taps p hist a ≡ first_taps p hist b =
        rw (same p (omega (arith, inside))) refl in
      let (last, past, r) =
        for_loop_rel (λ i s t. SamePass s t) 4 length (round p) (round p) (omega arith)
          round-SamePass 4 _ _ (e, update-Agree n p _ _ a b (ap weigh e) same) in
      r
