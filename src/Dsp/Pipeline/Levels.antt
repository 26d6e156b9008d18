-- ===== src/Dsp/Pipeline/Levels.antt =====
-- The level of the first stage on blocks of bytes, one after the other.
use rtl_ais_android.Base.{
  ℕ, ◌+◌, ◌*◌, ◌^◌, ◌≤◌, ◌<◌, ◌≡◌, refl, sym, ap, ◌∙◌, arith, Array, List, [], ◌∷◌, Bool-cases,
  ◌==◌, ◌≢◌, false, ◌⊎◌, inl, inr, ltb, ltb→lt, ltb→le,
}
use rtl_ais_android.Base.Int.{ℤ, pos, ◌-ℤ◌, -ℤ_parts, Within}
use rtl_ais_android.Base.Loop.{for_loop, for_loop_inv}
use rtl_ais_android.Dsp.FifthOrder.Bounds.{BlockWithin}
use rtl_ais_android.Dsp.Downsample.{downsample}
use rtl_ais_android.Dsp.Downsample.Level.{HistoriesWithin, downsample_level}
use rtl_ais_android.Dsp.Pipeline.{
  Pipeline, store_round, store_block, rtlsdr_callback, take_block, finish_block, pre_output,
  demod_round,
}
use rtl_ais_android.Dsp.Downsample.Keeps.{downsample-Keeps}

-- Blocks of bytes, the oldest first, each stored and then taken by one round of the thread.
module _ (up : Array ℤ → Array ℤ → ℕ → ℕ → Array ℤ) where
  unfoldable pub feed : List (Array ℕ) → Pipeline → Pipeline
  feed [] p = p
  feed (bytes ∷ later) p = feed later (demod_round up (rtlsdr_callback false bytes p.both.len_in p))

  pub demod_round-both : (p : Pipeline) → (demod_round up p).both ≡ downsample p.both
  unfolding demod_round take_block finish_block pre_output
  demod_round-both p = refl

unfoldable pub AreBytes : List (Array ℕ) → Type 0
AreBytes [] = Unit {0}
AreBytes (bytes ∷ later) = ((x : ℕ) → bytes x < 256) × AreBytes later

-- The block as stored is within 128 wherever what was there before is.
module _ (bytes : Array ℕ) (eight : (x : ℕ) → bytes x < 256) (n : ℕ) (old : Array ℤ)
    (rest : (x : ℕ) → n ≤ x → Within 128 (old x)) where
  Stored : ℕ → Array ℤ → Type 0
  Stored i buf = (x : ℕ) → (x < i) ⊎ (n ≤ x) → Within 128 (buf x)

  stored_byte : (i : ℕ) → Within 128 (pos (bytes i) -ℤ pos 127)
  stored_byte i =
      let parts = -ℤ_parts (pos (bytes i)) (pos 127) in
      (omega (arith, parts, eight i), omega (arith, parts, eight i))

  store_round-Stored :
      (i : ℕ) (buf : Array ℤ) → i < n → Stored i buf → Stored (i + 1) (store_round bytes i buf)
  unfolding Stored store_round
  store_round-Stored i buf lt h x at = elim (Bool-cases (i == x)) [
    | inl same ↦ rw same (stored_byte i)
    | inr other ↦ rw other (h x (before (apart other) at))
  ]
    where
      apart : (i == x) ≡ false → i ≢ x
      apart other e = ground (arith, other, e)

      before : (i ≢ x) → (x < i + 1) ⊎ (n ≤ x) → (x < i) ⊎ (n ≤ x)
      before ne (inl lt) = inl (omega (arith, ne))
      before ne (inr ge) = inr ge

  stored-Within : (x : ℕ) → Within 128 (for_loop 0 1 n (store_round bytes) old x)
  unfolding Stored
  stored-Within x =
      let (last, past, h) =
        for_loop_inv Stored 1 n (store_round bytes) (omega arith) store_round-Stored 0 old
          none_yet in
      h x (covered last past)
    where
      covered : (last : ℕ) → n ≤ last → (x < last) ⊎ (n ≤ x)
      covered last past = elim (Bool-cases (ltb x n)) [
        | inl lt ↦ inl (omega (arith, past, ltb→lt x n lt))
        | inr ge ↦ inr (ltb→le x n ge)
      ]

      none_yet : Stored 0 old
      none_yet y (inl lt) = absurd (omega (arith, lt))
      none_yet y (inr ge) = rest y ge

-- Between two blocks: the level is kept, and the numbers are those of the first block.
module _ (up : Array ℤ → Array ℤ → ℕ → ℕ → Array ℤ) (n passes : ℕ) (long : 2 * 2 ^ passes ≤ n)
    (small : 128 * 2 ^ passes ≤ 7448) where
  pub record Ready (p : Pipeline) : Type 0 where
    pub len_in : p.both.len_in ≡ n
    pub same_passes : p.both.downsample_passes ≡ passes
    pub histories : HistoriesWithin 128 p.both
    pub beyond : (x : ℕ) → n ≤ x → Within 128 (p.both.buf x)

  -- A block as the thread leaves it.
  pub record Taken (p : Pipeline) : Type 0 where
    pub ready : Ready p
    pub i_level : BlockWithin (5 * (128 * 2 ^ passes)) 0 p.both.buf
    pub q_level : BlockWithin (5 * (128 * 2 ^ passes)) 1 p.both.buf

  StoredBlock : Pipeline → Type 0
  StoredBlock p = (x : ℕ) → Within 128 (p.both.buf x)

  store_block-Ready :
      (bytes : Array ℕ) (p : Pipeline)
      → ((x : ℕ) → bytes x < 256)
      → Ready p
      → Ready (store_block bytes p.both.len_in p) × StoredBlock (store_block bytes p.both.len_in p)
  unfolding StoredBlock store_block
  store_block-Ready bytes p eight h =
      let all = stored-Within bytes eight p.both.len_in p.both.buf (rw h.len_in h.beyond) in
      (
        record {
          len_in = h.len_in;
          same_passes = h.same_passes;
          histories = record {
            lp_i = h.histories.lp_i;
            lp_q = h.histories.lp_q;
            droop_i = h.histories.droop_i;
            droop_q = h.histories.droop_q;
          };
          beyond = λ x ge. all x;
        },
        all,
      )

  downsample-Taken :
      (p q : Pipeline) → q.both ≡ downsample p.both → Ready p → StoredBlock p → Taken q
  unfolding StoredBlock
  downsample-Taken p q e h all =
      let long' : 2 * 2 ^ p.both.downsample_passes ≤ p.both.len_in =
        rw (h.len_in, h.same_passes) long in
      let kept = downsample-Keeps p.both long' in
      let (histories, i, q) =
        downsample_level 128 p.both long' (rw h.same_passes small) h.histories
          (λ k. all (0 + 2 * k)) (λ k. all (1 + 2 * k)) in
      record {
        ready = record {
          len_in = ap (λ d. d.len_in) e ∙ kept.len_in ∙ h.len_in;
          same_passes = ap (λ d. d.downsample_passes) e ∙ kept.passes ∙ h.same_passes;
          histories = rw e histories;
          beyond = λ x ge. rw (e, kept.beyond x (rw h.len_in ge)) (all x);
        };
        i_level = rw (e, sym h.same_passes) i;
        q_level = rw (e, sym h.same_passes) q;
      }

  block-Taken :
      (bytes : Array ℕ) (p : Pipeline)
      → ((x : ℕ) → bytes x < 256)
      → Ready p
      → Taken (demod_round up (rtlsdr_callback false bytes p.both.len_in p))
  unfolding rtlsdr_callback
  block-Taken bytes p eight h =
      let stored = store_block bytes p.both.len_in p in
      let (ready, all) = store_block-Ready bytes p eight h in
      downsample-Taken stored (demod_round up stored) (demod_round-both up stored) ready all

  -- Of blocks of bytes that are long enough for the passes, from histories and a rest of the
  -- buffer that are within 128, every block leaves I and Q values within 5 * 128 * 2 ^ passes,
  -- which an int16_t holds, if 128 * 2 ^ passes is at most 7448; and the lengths, the histories and the
  -- rest of the buffer are again such that this holds of the next block.
  pub feed-Taken :
      (bytes : Array ℕ) (later : List (Array ℕ)) (p : Pipeline)
      → AreBytes (bytes ∷ later)
      → Ready p
      → Taken (feed up (bytes ∷ later) p)
  unfolding feed AreBytes
  feed-Taken bytes [] p eight h = block-Taken bytes p eight.0 h
  feed-Taken bytes (next ∷ later) p eight h =
      feed-Taken next later (demod_round up (rtlsdr_callback false bytes p.both.len_in p)) eight.1
        (block-Taken bytes p eight.0 h).ready
