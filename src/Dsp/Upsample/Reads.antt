-- ===== src/Dsp/Upsample/Reads.antt =====
-- What the interpolation reads: its samples up to their number.
use Prim.{tt}
use mathlib.Core.Path.{subst}
use native.Mathlib.Numerals.{add-one}
use rtl_ais_android.Base.{
  ℕ, zero, suc, ◌+◌, ◌-◌, ◌≤◌, ◌<◌, ◌≡◌, refl, arith, ltb, leb, ◌&&◌, true, false, Array, Agree,
  update-Agree_next, ltb→le, Bool-cases, inl, inr,
}
use rtl_ais_android.Base.Int.{ℤ}
use rtl_ais_android.Dsp.Upsample.Positions.{arbitrary_upsample-IsOutput}
use rtl_ais_android.Dsp.Upsample.{
  Walk, Ended, done, bad_read, out_of_fuel, walk_round, walk_loop, arbitrary_upsample, upsampled,
}

module _ (mix : ℕ → ℕ → ℤ → ℤ → ℤ) (len1 len2 : ℕ) (a b : Array ℤ) (same : Agree len1 a b) where
  record SameWalk (v w : Walk) : Type 0 where
    pub i : v.i ≡ w.i
    pub j : v.j ≡ w.j
    pub tick : v.tick ≡ w.tick
    pub buf2 : Agree v.j v.buf2 w.buf2

  inside : (i : ℕ) → (leb 1 i && ltb i len1) ≡ true → (i - 1 < len1) × (i < len1)
  inside i h = (ground (arith, h), ground (arith, h))

  round-SameWalk :
      (v w : Walk)
      → (leb 1 v.i && ltb v.i len1) ≡ true
      → SameWalk v w
      → SameWalk (walk_round mix a len1 len2 v) (walk_round mix b len1 len2 w)
  unfolding walk_round
  round-SameWalk v w reads h =
      let (before, here) = inside v.i reads in
      record {
        i = rw (h.i, h.tick) refl;
        j = rw h.j refl;
        tick = rw (h.i, h.tick) refl;
        buf2 =
            rw (← h.j, ← h.tick, ← h.i, add-one)
              (update-Agree_next v.j _ _ v.buf2 w.buf2
                (rw (same (v.i - 1) before, same v.i here) refl) h.buf2);
      }

  abbrev SameEnded : Ended → Ended → Type 0
  SameEnded (done out) (done out') = Agree len2 out out'
  SameEnded bad_read bad_read = Unit {0}
  SameEnded out_of_fuel out_of_fuel = Unit {0}
  SameEnded _ _ = ⊥

  loop-SameEnded :
      (fuel : ℕ) (v w : Walk)
      → SameWalk v w
      → SameEnded (walk_loop mix a len1 len2 fuel v) (walk_loop mix b len1 len2 fuel w)
  unfolding walk_loop
  loop-SameEnded zero v w h = tt
  loop-SameEnded (suc fuel) v w h = elim (Bool-cases (ltb v.j len2)) [
    | inr over ↦
        let over' : ltb w.j len2 ≡ false = rw (← h.j) over in
        rw (over, over', walk_loop) (λ x lt. h.buf2 x (omega (arith, ltb→le v.j len2 over)))
    | inl more ↦
        let more' : ltb w.j len2 ≡ true = rw (← h.j) more in
        elim (Bool-cases (leb 1 v.i && ltb v.i len1)) [
          | inr bad ↦
              let bad' : (leb 1 w.i && ltb w.i len1) ≡ false = rw (← h.i) bad in
              rw (more, more', bad, bad', walk_loop) tt
          | inl reads ↦
              let reads' : (leb 1 w.i && ltb w.i len1) ≡ true = rw (← h.i) reads in
              rw (more, more', reads, reads', walk_loop)
                (loop-SameEnded fuel (walk_round mix a len1 len2 v) (walk_round mix b len1 len2 w)
                  (round-SameWalk v w reads h))
        ]
  ]

  both-SameEnded :
      (s t : Array ℤ)
      → SameEnded
          (arbitrary_upsample mix a len1 len2 (len2 + 1) s)
          (arbitrary_upsample mix b len1 len2 (len2 + 1) t)
  unfolding arbitrary_upsample
  both-SameEnded s t =
      loop-SameEnded (len2 + 1) _ _
        (record { i = refl; j = refl; tick = refl; buf2 = λ x lt. absurd (omega arith) })

  -- From two or more samples to at least as many, the outputs are those of the samples, whatever
  -- stood in their array.
  pub upsampled-Agree :
      2 ≤ len1
      → len1 ≤ len2
      → (s t : Array ℤ) → Agree len2 (upsampled mix a s len1 len2) (upsampled mix b t len1 len2)
  unfolding upsampled
  upsampled-Agree two up s t =
      let (out, ends, stored, rest) =
        arbitrary_upsample-IsOutput mix a len1 len2 s (len2 + 1) two up (omega arith) in
      let (out', ends', stored', rest') =
        arbitrary_upsample-IsOutput mix b len1 len2 t (len2 + 1) two up (omega arith) in
      let same : SameEnded (done out) (done out') =
        subst (λ r. SameEnded (done out) r) ends'
          (subst (λ r. SameEnded r (arbitrary_upsample mix b len1 len2 (len2 + 1) t)) ends
            (both-SameEnded s t)) in
      rw (ends, ends') same
