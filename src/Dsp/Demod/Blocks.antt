-- ===== src/Dsp/Demod/Blocks.antt =====
-- What `demodulate` leaves, sample by sample, and of a signal that is cut into blocks.
use rtl_ais_android.Base.{
  ℕ, zero, suc, ◌+◌, ◌-◌, ◌*◌, ◌/◌, ◌≤◌, ◌<◌, ◌≡◌, refl, arith, Array, update, update_ne, ap, sym,
  ◌∙◌,
}
use rtl_ais_android.Base.Int.{ℤ, to_int16}
use rtl_ais_android.Base.Loop.{for_loop_inv}
use rtl_ais_android.Dsp.Demod.{DemodState, polar_disc_fast, demodulate_round, demodulate}

-- A complex signal: its samples from number 0 on, and the one before.
pub record Signal : Type 0 where
  pub before_r : ℤ
  pub before_j : ℤ
  pub re : Array ℤ
  pub im : Array ℤ

-- The change of angle into sample k, as an int16_t.
abbrev pub turn_into : Signal → ℕ → ℤ
turn_into s zero = to_int16 (polar_disc_fast (s.re 0) (s.im 0) s.before_r s.before_j)
turn_into s (suc k) = to_int16 (polar_disc_fast (s.re (suc k)) (s.im (suc k)) (s.re k) (s.im k))

-- The signal that a state holds.
abbrev pub signal : DemodState → Signal
signal d = record {
  before_r = d.pre_r;
  before_j = d.pre_j;
  re = λ k. d.buf (2 * k);
  im = λ k. d.buf (2 * k + 1);
}

module _ (d : DemodState) (n : ℕ) (even : d.buf_len ≡ 2 * suc n) where
  -- Before the round at i = 2 * k: results 0 to k - 1 are stored.
  record Demodulating (i : ℕ) (result : Array ℤ) : Type 0 where
    pub k : ℕ
    pub at : i ≡ 2 * suc k
    pub reached : k ≤ n
    pub stored : (j : ℕ) → j ≤ k → result j ≡ turn_into (signal d) j
    pub untouched : (j : ℕ) → k < j → result j ≡ d.result j

  round_lem :
      (k : ℕ) (result : Array ℤ)
      → demodulate_round d.buf (2 * suc k) result
        ≡ update result (suc k) (turn_into (signal d) (suc k))
  unfolding demodulate_round
  round_lem k result =
      let half : 2 * suc k / 2 ≡ suc k = omega arith in
      let older_r : 2 * suc k - 2 ≡ 2 * k = omega arith in
      let older_j : 2 * suc k - 1 ≡ 2 * k + 1 = omega arith in rw (half, older_r, older_j)

  round-Demodulating :
      (i : ℕ) (result : Array ℤ)
      → i < d.buf_len - 1
      → Demodulating i result
      → Demodulating (i + 2) (demodulate_round d.buf i result)
  round-Demodulating i result lt h = record {
    k = suc h.k;
    at = omega (arith, h.at);
    reached = omega (arith, h.at);
    stored = λ j le. rw (h.at, round_lem h.k result) (store j le);
    untouched = λ j beyond.
        rw (h.at, round_lem h.k result)
          (update_ne result (suc h.k) j _ (omega arith) ∙ h.untouched j (omega arith));
  }
    where
      store :
          (j : ℕ)
          → j ≤ suc h.k
          → update result (suc h.k) (turn_into (signal d) (suc h.k)) j ≡ turn_into (signal d) j
      store j le = ground (arith, h.stored j)

  first-Demodulating :
      Demodulating 2
        (update d.result 0 (to_int16 (polar_disc_fast (d.buf 0) (d.buf 1) d.pre_r d.pre_j)))
  first-Demodulating = record {
    k = 0;
    at = omega arith;
    reached = omega arith;
    stored = λ j le. let e : j ≡ 0 = omega arith in rw e refl;
    untouched = λ j beyond. update_ne d.result 0 j _ (omega arith);
  }

  -- What a call on a block of `suc n` samples leaves.
  pub record IsDemodulated (r : DemodState) : Type 0 where
    pub stored : (k : ℕ) → k ≤ n → r.result k ≡ turn_into (signal d) k
    pub untouched : (k : ℕ) → n < k → r.result k ≡ d.result k
    pub last_r : r.pre_r ≡ (signal d).re n
    pub last_j : r.pre_j ≡ (signal d).im n

  -- A call on a block of one or more whole samples stores for each the change of angle from the
  -- sample before it, the first one against the last sample of the block before; it changes no
  -- other place of the result, and keeps the last sample for the next block.
  pub demodulate-IsDemodulated : IsDemodulated (demodulate d)
  unfolding demodulate
  demodulate-IsDemodulated =
      let (i, past, h) =
        for_loop_inv Demodulating 2 (d.buf_len - 1) (demodulate_round d.buf) (omega arith)
          round-Demodulating 2 _ first-Demodulating in
      let all : h.k ≡ n = omega (arith, h.at, h.reached) in
      let at_r : d.buf_len - 2 ≡ 2 * n = omega arith in
      let at_j : d.buf_len - 1 ≡ 2 * n + 1 = omega arith in
      record {
        stored = λ k le. h.stored k (omega (arith, all));
        untouched = λ k beyond. h.untouched k (omega (arith, all));
        last_r = rw at_r;
        last_j = rw at_j;
      }

-- A block of `suc n + suc m` samples, and the same samples in two blocks.
module _ (d : DemodState) (n m : ℕ) where
  abbrev pub whole : DemodState
  whole = record d { buf_len = 2 * suc (n + suc m) }

  abbrev pub first_block : DemodState
  first_block = record d { buf_len = 2 * suc n }

  -- The state for the second block is the one that the first call leaves, with the next samples.
  unfoldable pub second_block : DemodState
  second_block = record (demodulate first_block) {
    buf = λ j. d.buf (2 * suc n + j);
    buf_len = 2 * suc m;
  }

  second_len : second_block.buf_len ≡ 2 * suc m
  unfolding second_block
  second_len = refl

  first_done : IsDemodulated first_block n refl (demodulate first_block)
  first_done = demodulate-IsDemodulated first_block n refl

  turn_across : (k : ℕ) → turn_into (signal second_block) k ≡ turn_into (signal whole) (suc (n + k))
  unfolding second_block
  turn_across zero =
      let e : n + 0 ≡ n = omega arith in
      let re : 2 * suc n + 2 * 0 ≡ 2 * suc n = omega arith in
      let im : 2 * suc n + (2 * 0 + 1) ≡ 2 * suc n + 1 = omega arith in
      rw (e, re, im, first_done.last_r, first_done.last_j)
  turn_across (suc k) =
      let e : n + suc k ≡ suc (n + k) = omega arith in
      let re : 2 * suc n + 2 * suc k ≡ 2 * suc (suc (n + k)) = omega arith in
      let im : 2 * suc n + (2 * suc k + 1) ≡ 2 * suc (suc (n + k)) + 1 = omega arith in
      let re' : 2 * suc n + 2 * k ≡ 2 * suc (n + k) = omega arith in
      let im' : 2 * suc n + (2 * k + 1) ≡ 2 * suc (n + k) + 1 = omega arith in
      rw (e, re, im, re', im')

  -- Where a signal is cut into blocks makes no difference: demodulating `suc n` samples and then
  -- `suc m` more gives the results, in order, and the last sample that one call on all of them gives.
  pub demodulate_in_blocks :
      ((k : ℕ) → k ≤ n → (demodulate whole).result k ≡ (demodulate first_block).result k)
      × ((k : ℕ)
          → k ≤ m
          → (demodulate whole).result (suc (n + k)) ≡ (demodulate second_block).result k)
      × ((demodulate whole).pre_r ≡ (demodulate second_block).pre_r)
      × ((demodulate whole).pre_j ≡ (demodulate second_block).pre_j)
  demodulate_in_blocks = (
    λ k le. all.stored k (omega arith) ∙ same k ∙ sym (first_done.stored k le),
    λ k le. all.stored (suc (n + k)) (omega arith) ∙ sym (turn_across k) ∙ sym (rest.stored k le),
    all.last_r ∙ ap d.buf (omega arith) ∙ sym rest_r,
    all.last_j ∙ ap d.buf (omega arith) ∙ sym rest_j,
  )
    where
      all : IsDemodulated whole (n + suc m) refl (demodulate whole)
      all = demodulate-IsDemodulated whole (n + suc m) refl

      rest : IsDemodulated second_block m second_len (demodulate second_block)
      rest = demodulate-IsDemodulated second_block m second_len

      rest_r : (demodulate second_block).pre_r ≡ d.buf (2 * suc n + 2 * m)
      rest_r = unfold second_block in rest.last_r

      rest_j : (demodulate second_block).pre_j ≡ d.buf (2 * suc n + (2 * m + 1))
      rest_j = unfold second_block in rest.last_j

      same : (k : ℕ) → turn_into (signal whole) k ≡ turn_into (signal first_block) k
      same zero = refl
      same (suc k) = refl
