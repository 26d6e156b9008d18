-- ===== src/Dsp/GenericFir/Reads.antt =====
-- What `generic_fir` reads: its history, and the block up to its length.
use rtl_ais_android.Base.{ℕ, ◌+◌, ◌≤◌, ◌<◌, ◌≡◌, refl, ap, arith, Array, Agree, update-Agree, List}
use rtl_ais_android.Base.Int.{ℤ}
use rtl_ais_android.Base.Loop.{for_loop_rel}
use rtl_ais_android.Dsp.GenericFir.{History, filtered, Run, round, generic_fir}

module _ (p length n : ℕ) (inside : p + length ≤ n) (fir : List ℤ) where
  abbrev pub SameRun : Run → Run → Type 0
  SameRun s t = (s.hist ≡ t.hist) × Agree n s.buf t.buf

  round-SameRun :
      (d : ℕ) (s t : Run) → d < length → SameRun s t → SameRun (round p fir d s) (round p fir d t)
  unfolding round
  round-SameRun d s t lt (hist, same) =
      let read = same (p + d) (omega (arith, inside)) in
      (rw (hist, read) refl, update-Agree n (p + d) _ _ s.buf t.buf (ap (filtered fir) hist) same)

  pub generic_fir-SameRun :
      (hist : History) (a b : Array ℤ)
      → Agree n a b
      → SameRun (generic_fir p length fir hist a) (generic_fir p length fir hist b)
  unfolding generic_fir
  generic_fir-SameRun hist a b same =
      let (last, past, r) =
        for_loop_rel (λ d s t. SameRun s t) 2 length (round p fir) (round p fir) (omega arith)
          round-SameRun 0 _ _ (refl, same) in
      r
