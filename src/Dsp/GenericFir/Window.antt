-- ===== src/Dsp/GenericFir/Window.antt =====
-- What the loop of `generic_fir` computes: a window of nine values that moves by one.
use rtl_ais_android.Base.{
  ℕ, zero, suc, ◌+◌, ◌*◌, ◌/◌, ◌<◌, ◌≡◌, ◌≢◌, refl, arith, Array, update, update_ne, List, sym, ◌∙◌,
}
use rtl_ais_android.Base.Int.{ℤ}
use rtl_ais_android.Base.Loop.{for_loop_inv}
use rtl_ais_android.Dsp.GenericFir.{History, filtered, Run, round, generic_fir}

-- The history, then every second value of the block from `p` on.
abbrev pub stream : ℕ → History → Array ℤ → ℕ → ℤ
stream p hist buf zero = hist.h0
stream p hist buf (suc zero) = hist.h1
stream p hist buf (suc (suc zero)) = hist.h2
stream p hist buf (suc (suc (suc zero))) = hist.h3
stream p hist buf (suc (suc (suc (suc zero)))) = hist.h4
stream p hist buf (suc (suc (suc (suc (suc zero))))) = hist.h5
stream p hist buf (suc (suc (suc (suc (suc (suc zero)))))) = hist.h6
stream p hist buf (suc (suc (suc (suc (suc (suc (suc zero))))))) = hist.h7
stream p hist buf (suc (suc (suc (suc (suc (suc (suc (suc zero)))))))) = hist.h8
stream p hist buf (suc (suc (suc (suc (suc (suc (suc (suc (suc n))))))))) = buf (p + 2 * n)

abbrev pub window : (ℕ → ℤ) → ℕ → History
window s n = record {
  h0 = s n;
  h1 = s (suc n);
  h2 = s (suc (suc n));
  h3 = s (suc (suc (suc n)));
  h4 = s (suc (suc (suc (suc n))));
  h5 = s (suc (suc (suc (suc (suc n)))));
  h6 = s (suc (suc (suc (suc (suc (suc n))))));
  h7 = s (suc (suc (suc (suc (suc (suc (suc n)))))));
  h8 = s (suc (suc (suc (suc (suc (suc (suc (suc n))))))));
}

module _ (p length : ℕ) (fir : List ℤ) (hist : History) (buf : Array ℤ) where
  abbrev pub output : ℕ → ℤ
  output k = filtered fir (window (stream p hist buf) k)

  -- Before the round at d = 2 * k: outputs 0 to k - 1 are stored.
  record Filtering (d : ℕ) (s : Run) : Type 0 where
    pub k : ℕ
    pub at : d ≡ 2 * k
    pub reached : 2 * k < length + 2
    pub stored : (j : ℕ) → j < k → s.buf (p + 2 * j) ≡ output j
    pub untouched : (x : ℕ) → ((j : ℕ) → j < k → x ≢ p + 2 * j) → s.buf x ≡ buf x
    pub hist_at : s.hist ≡ window (stream p hist buf) k

  round-Filtering :
      (d : ℕ) (s : Run) → d < length → Filtering d s → Filtering (d + 2) (round p fir d s)
  unfolding round
  round-Filtering d s lt h = record {
    k = suc h.k;
    at = omega (arith, h.at);
    reached = omega (arith, h.at);
    stored = λ j le. rw (h.at, h.hist_at) (store j le);
    untouched = λ x away. rw h.at (
        update_ne s.buf (p + 2 * h.k) x _ (λ e. away h.k (omega arith) (sym e))
        ∙ h.untouched x (λ j le. away j (omega arith)));
    hist_at = rw (h.at, h.hist_at, read);
  }
    where
      read : s.buf (p + 2 * h.k) ≡ buf (p + 2 * h.k)
      read = h.untouched (p + 2 * h.k) (λ j below e. absurd (omega arith))

      store : (j : ℕ) → j < suc h.k → update s.buf (p + 2 * h.k) (output h.k) (p + 2 * j) ≡ output j
      store j le = ground (arith, h.stored j)

  -- What a call leaves in `r`.
  pub record IsFiltered (r : Run) : Type 0 where
    pub stored : (k : ℕ) → 2 * k < length → r.buf (p + 2 * k) ≡ output k
    pub untouched : (x : ℕ) → ((k : ℕ) → 2 * k < length → x ≢ p + 2 * k) → r.buf x ≡ buf x
    pub kept : r.hist ≡ window (stream p hist buf) ((length + 1) / 2)

  -- `generic_fir` replaces each value of its half of the block by the filtered window of the nine
  -- values before it, read from the history and the unchanged block; it changes no other place, and
  -- keeps the last nine values as history, so a next block goes on where this one ends.
  pub generic_fir-IsFiltered : IsFiltered (generic_fir p length fir hist buf)
  unfolding generic_fir
  generic_fir-IsFiltered =
      let (d, past, h) =
        for_loop_inv Filtering 2 length (round p fir) (omega arith) round-Filtering 0
          (record { hist = hist; buf = buf }) start in
      let last : (length + 1) / 2 ≡ h.k = omega (arith, h.at, h.reached) in
      record {
        stored = λ k lt. h.stored k (omega (arith, h.at));
        untouched = λ x away. h.untouched x (λ j lt. away j (omega (arith, h.at, h.reached)));
        kept = rw last h.hist_at;
      }
    where
      start : Filtering 0 (record { hist = hist; buf = buf })
      start = record {
        k = 0;
        at = refl;
        reached = omega arith;
        stored = λ j lt. absurd (omega arith);
        untouched = λ x away. refl;
        hist_at = refl;
      }
