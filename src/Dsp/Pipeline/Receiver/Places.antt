-- ===== src/Dsp/Pipeline/Receiver/Places.antt =====
-- Where the samples of a signal stand in a buffer once they are stored, copied, turned or interleaved.
use rtl_ais_android.Base.{
  ℕ, ◌+◌, ◌*◌, ◌%◌, ◌≤◌, ◌<◌, ◌≡◌, refl, ap, ◌∙◌, arith, Array, lt→ltb, ◌==◌, Bool-cases, inl, inr,
}
use rtl_ais_android.Base.Int.{ℤ, pos, ◌-ℤ◌}
use rtl_ais_android.Base.Loop.{for_loop, for_loop_inv}
use rtl_ais_android.Dsp.Rotate.{rotate_90, rotate_m90}
use rtl_ais_android.Dsp.Rotate.Turns.{
  IsInt16, quarter_turns, quarter_turns_back, rotate_90_turns, rotate_m90_turns,
}
use rtl_ais_android.Dsp.Downsample.Decimation.Calls.{Carries}
use rtl_ais_android.Dsp.Pipeline.{copied, store_round, interleave_round}
use rtl_ais_android.Dsp.Pipeline.Receiver.{Iq, received, turned}

-- The first `n` samples of a signal, the parts in turn.
pub record Holds (n : ℕ) (s : Iq) (buf : Array ℤ) : Type 0 where
  pub i : Carries 0 n s.i buf
  pub q : Carries 1 n s.q buf

Stored : Array ℕ → ℕ → Array ℤ → Type 0
Stored bytes i buf = (x : ℕ) → x < i → buf x ≡ pos (bytes x) -ℤ pos 127

store_round-Stored :
    (bytes : Array ℕ) (n i : ℕ) (buf : Array ℤ)
    → i < n
    → Stored bytes i buf
    → Stored bytes (i + 1) (store_round bytes i buf)
unfolding Stored store_round
store_round-Stored bytes n i buf lt h x below = elim (Bool-cases (i == x)) [
  | inl same ↦ ground (arith, same)
  | inr other ↦ rw other (h x (ground (arith, other, below)))
]

pub stored-Holds :
    (bytes : Array ℕ) (n : ℕ) (buf : Array ℤ)
    → Holds n (received bytes) (for_loop 0 1 (2 * n) (store_round bytes) buf)
unfolding Stored
stored-Holds bytes n buf =
    let (last, past, h) =
      for_loop_inv (Stored bytes) 1 (2 * n) (store_round bytes) (omega arith)
        (store_round-Stored bytes (2 * n)) 0 buf (λ x lt. absurd (omega arith)) in
    record {
      i = λ k lt.
          h (0 + 2 * k) (omega (arith, past, lt))
          ∙ ap (λ x. pos (bytes x) -ℤ pos 127) (omega arith);
      q = λ k lt.
          h (1 + 2 * k) (omega (arith, past, lt))
          ∙ ap (λ x. pos (bytes x) -ℤ pos 127) (omega arith);
    }

pub copied-Holds :
    (n m : ℕ) (s : Iq) (a t : Array ℤ) → 2 * n ≤ m → Holds n s a → Holds n s (copied m a t)
copied-Holds n m s a t le h = record {
  i = λ k lt. rw (lt→ltb (0 + 2 * k) m (omega (arith, le, lt))) (h.i k lt);
  q = λ k lt. rw (lt→ltb (1 + 2 * k) m (omega (arith, le, lt))) (h.q k lt);
}

-- A buffer whose samples are turned.
turned-Holds :
    (n : ℕ) (turns : ℕ → ℤ × ℤ → ℤ × ℤ) (s : Iq) (a b : Array ℤ)
    → Holds n s a
    → ((k : ℕ) → k < n → (b (2 * k), b (2 * k + 1)) ≡ turns (k % 4) (a (2 * k), a (2 * k + 1)))
    → Holds n (turned turns s) b
turned-Holds n turns s a b h each = record {
  i = λ k lt. ap b (omega arith) ∙ ap (λ z. z.0) (both k lt);
  q = λ k lt. ap b (omega arith) ∙ ap (λ z. z.1) (both k lt);
}
  where
    both : (k : ℕ) → k < n → (b (2 * k), b (2 * k + 1)) ≡ turns (k % 4) (s.i k, s.q k)
    both k lt =
        let i : a (2 * k) ≡ s.i k = ap a (omega arith) ∙ h.i k lt in
        let q : a (2 * k + 1) ≡ s.q k = ap a (omega arith) ∙ h.q k lt in each k lt ∙ rw (i, q) refl

-- Both parts of a signal are int16 values.
abbrev pub AreInt16 : Iq → Type 0
AreInt16 s = (k : ℕ) → IsInt16 (s.i k) × IsInt16 (s.q k)

module _ (n : ℕ) (s : Iq) (a : Array ℤ) (int16 : AreInt16 s) (h : Holds n s a) where
  parts : (k : ℕ) → k < n → IsInt16 (a (2 * k)) × IsInt16 (a (2 * k + 1))
  parts k lt =
      let i : a (2 * k) ≡ s.i k = ap a (omega arith) ∙ h.i k lt in
      let q : a (2 * k + 1) ≡ s.q k = ap a (omega arith) ∙ h.q k lt in rw (i, q) (int16 k)

  pub rotate_90-Holds : Holds n (turned quarter_turns s) (rotate_90 a (2 * n))
  rotate_90-Holds =
      turned-Holds n quarter_turns s a _ h
        (λ k lt. rotate_90_turns a (2 * n) k (parts k lt) (omega (arith, lt)))

  pub rotate_m90-Holds : Holds n (turned quarter_turns_back s) (rotate_m90 a (2 * n))
  rotate_m90-Holds =
      turned-Holds n quarter_turns_back s a _ h
        (λ k lt. rotate_m90_turns a (2 * n) k (parts k lt) (omega (arith, lt)))

Interleaved : Array ℤ → Array ℤ → ℕ → Array ℤ → Type 0
Interleaved l r i a = (m : ℕ) → m < i → (a (m * 2) ≡ l m) × (a (m * 2 + 1) ≡ r m)

interleave_round-Interleaved :
    (l r : Array ℤ) (n i : ℕ) (a : Array ℤ)
    → i < n
    → Interleaved l r i a
    → Interleaved l r (i + 1) (interleave_round l r i a)
unfolding Interleaved interleave_round
interleave_round-Interleaved l r n i a lt h m below = ground (arith, h m)

pub interleaved :
    (l r a : Array ℤ) (n m : ℕ)
    → m < n
    → let b = for_loop 0 1 n (interleave_round l r) a in (b (2 * m) ≡ l m) × (b (2 * m + 1) ≡ r m)
unfolding Interleaved
interleaved l r a n m lt =
    let (last, past, h) =
      for_loop_inv (Interleaved l r) 1 n (interleave_round l r) (omega arith)
        (interleave_round-Interleaved l r n) 0 a (λ k below. absurd (omega arith)) in
    let (even, odd) = h m (omega (arith, past, lt)) in
    let e : 2 * m ≡ m * 2 = omega arith in rw e (even, odd)
