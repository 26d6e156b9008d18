-- ===== src/Filter/Window.antt =====
-- The outputs of the filter, against the weighed past of the stream.
use mathlib.Core.Path.{subst}
use rtl_ais_android.Base.{
  Bool, true, false, ℕ, zero, suc, ◌+◌, ◌-◌, ◌*◌, ◌≤◌, ◌<◌, ◌≡◌, refl, arith, Array, update, ◌==◌,
  ==_iff, Bool-cases, inl, inr, update_self, update_ne, lt→ltb, if◌then◌else◌, ap, ◌∙◌, sym,
}
use rtl_ais_android.Base.Int.{ℤ, pos, ltb_ℤ}
use rtl_ais_android.Filter.{
  buffer_len, Floats, Filter, filter_mac, moved_back, advance, read_out, filter_run, filter_rounds,
  filter_run_buf,
}

module _ (fl : Floats) where
  open fl use {Float, nothing, from_short}

  -- The filter holds the stream `s` up to value `t`: the `length` values before the pointer are the
  -- newest, and the pointer lies within the buffer.
  pub record Holds (s : Array Float) (t : ℕ) (f : Filter fl) : Type 0 where
    pub short : f.length + f.length ≤ buffer_len
    pub enough : f.length ≤ t
    pub low : f.length ≤ f.pointer
    pub high : f.pointer < buffer_len
    pub past : (i : ℕ) → i < f.length → f.buffer (f.pointer - f.length + i) ≡ s (t - f.length + i)

  mac_cong :
      (a a' b : Array Float) (n : ℕ)
      → ((i : ℕ) → i < n → a i ≡ a' i)
      → filter_mac fl a b n ≡ filter_mac fl a' b n
  unfolding filter_mac
  mac_cong a a' b zero same = refl
  mac_cong a a' b (suc n) same =
      ap (λ (x : Float). fl.add x (fl.mul (a n) (b n)))
        (mac_cong a a' b n (λ i lt. same i (omega arith)))
      ∙ ap (λ (x : Float). fl.add (filter_mac fl a' b n) (fl.mul x (b n))) (same n (omega arith))

  moved_back-lem :
      (length : ℕ) (buffer : Array Float) (i : ℕ)
      → i < length
      → moved_back fl length buffer i ≡ buffer (buffer_len - length + i)
  unfolding moved_back
  moved_back-lem length buffer i lt = rw (lt→ltb i length lt) refl

  module _ (s : Array Float) (t : ℕ) (f : Filter fl) (h : Holds s t f) where
    read-past :
        (i : ℕ)
        → i < f.length
        → update f.buffer f.pointer (s t) (f.pointer - f.length + i) ≡ s (t - f.length + i)
    read-past i lt =
        update_ne f.buffer f.pointer (f.pointer - f.length + i) (s t)
          (λ e. omega (arith, h.low, lt, e))
        ∙ h.past i lt

    -- The output is the weighed past of the stream.
    run-output :
        (filter_run fl (s t) f).1 ≡ filter_mac fl (λ i. s (t - f.length + i)) f.taps f.length
    unfolding filter_run read_out
    run-output = mac_cong _ _ f.taps f.length read-past

    -- With the new value the newest ones stand before the next place.
    stored :
        (i : ℕ)
        → i < f.length
        → update f.buffer f.pointer (s t) (f.pointer + 1 - f.length + i) ≡ s (suc t - f.length + i)
    stored i lt = elim (Bool-cases (suc i == f.length)) [
      | inl newest ↦
          let e : suc i ≡ f.length = (==_iff (suc i) f.length).0 newest in
          let at : f.pointer + 1 - f.length + i ≡ f.pointer = omega (arith, h.low, e) in
          let last : suc t - f.length + i ≡ t = omega (arith, h.enough, e) in
          rw (at, last) (update_self f.buffer f.pointer (s t))
      | inr older ↦
          let less : suc i < f.length = ground (arith, older, lt) in
          let at : f.pointer + 1 - f.length + i ≡ f.pointer - f.length + suc i =
            omega (arith, h.low) in
          let value : suc t - f.length + i ≡ t - f.length + suc i = omega (arith, h.enough) in
          rw (at, value) (read-past (suc i) less)
    ]

    -- The filter holds one value more, whether the buffer was moved back or not.
    run-Holds : Holds s (suc t) (filter_run fl (s t) f).0
    unfolding filter_run advance
    run-Holds = elim (Bool-cases (f.pointer + 1 == buffer_len)) [
      | inl full ↦
          let e : f.pointer + 1 ≡ buffer_len = (==_iff (f.pointer + 1) buffer_len).0 full in
          rw full (record {
            short = h.short;
            enough = omega (arith, h.enough);
            low = omega arith;
            high = omega (arith, h.short);
            past = λ i lt.
                let start : f.length - f.length + i ≡ i = omega arith in rw start (moved e i lt);
          })
      | inr more ↦
          let room : f.pointer + 1 < buffer_len = ground (arith, more, h.high) in
          rw more (record {
            short = h.short;
            enough = omega (arith, h.enough);
            low = omega (arith, h.low);
            high = room;
            past = stored;
          })
    ]
      where
        moved :
            f.pointer + 1 ≡ buffer_len
            → (i : ℕ) → i < f.length
            → moved_back fl f.length (update f.buffer f.pointer (s t)) i ≡ s (suc t - f.length + i)
        moved e i lt =
            let at : buffer_len - f.length + i ≡ f.pointer + 1 - f.length + i = omega (arith, e) in
            moved_back-lem f.length (update f.buffer f.pointer (s t)) i lt
            ∙ ap (update f.buffer f.pointer (s t)) at
            ∙ stored i lt

  run-length : (x : Float) (f : Filter fl) → (filter_run fl x f).0.length ≡ f.length
  unfolding filter_run advance
  run-length x f = either (f.pointer + 1 == buffer_len)
    where
      f' : Filter fl
      f' = record f { buffer = update f.buffer f.pointer x }

      either :
          (b : Bool)
          → (if b
              then record f' { buffer = moved_back fl f.length f'.buffer; pointer = f.length }
              else record f' { pointer = f.pointer + 1 }).length
            ≡ f.length
      either true = refl
      either false = refl

  run-taps : (x : Float) (f : Filter fl) → (filter_run fl x f).0.taps ≡ f.taps
  unfolding filter_run advance
  run-taps x f = either (f.pointer + 1 == buffer_len)
    where
      f' : Filter fl
      f' = record f { buffer = update f.buffer f.pointer x }

      either :
          (b : Bool)
          → (if b
              then record f' { buffer = moved_back fl f.length f'.buffer; pointer = f.length }
              else record f' { pointer = f.pointer + 1 }).taps
            ≡ f.taps
      either true = refl
      either false = refl

  -- The values of a call of `filter_run_buf` are those of the stream from `t` on.
  module _ (s : Array Float) (t : ℕ) (input : Array ℤ) (step : ℕ)
      (same : (k : ℕ) → s (t + k) ≡ from_short (input (k * step))) where
    -- The output of filter `f` at value k of the call.
    abbrev pub weighed_past : Filter fl → ℕ → Float
    weighed_past f k = filter_mac fl (λ i. s (t + k - f.length + i)) f.taps f.length

    -- What `n` rounds from `od` on leave.
    record Rounds (n od : ℕ) (f : Filter fl) (result : Array Float)
        (r : Filter fl × (Array Float × ℤ)) : Type 0 where
      pub outputs : (k : ℕ) → od ≤ k → k < od + n → r.1.0 k ≡ weighed_past f k
      pub others : (k : ℕ) → k < od → r.1.0 k ≡ result k
      pub beyond : (k : ℕ) → od + n ≤ k → r.1.0 k ≡ result k
      pub holds : Holds s (t + od + n) r.0

    module _ (od : ℕ) (f : Filter fl) (h : Holds s (t + od) f) where
      abbrev value : Float
      value = from_short (input (od * step))

      abbrev next : Filter fl
      next = (filter_run fl value f).0

      next-Holds : Holds s (t + suc od) next
      next-Holds =
          let e : t + suc od ≡ suc (t + od) = omega arith in
          rw e (
            subst (λ (x : Float). Holds s (suc (t + od)) (filter_run fl x f).0) (same od)
              (run-Holds s (t + od) f h))

      next-output : (filter_run fl value f).1 ≡ weighed_past f od
      next-output =
          subst (λ (x : Float). (filter_run fl x f).1 ≡ weighed_past f od) (same od)
            (run-output s (t + od) f h)

      next-weighed : (k : ℕ) → weighed_past next k ≡ weighed_past f k
      next-weighed k =
          ap (λ (l : ℕ). filter_mac fl (λ i. s (t + k - l + i)) next.taps l) (run-length value f)
          ∙ ap (λ (b : Array Float). filter_mac fl (λ i. s (t + k - f.length + i)) b f.length)
              (run-taps value f)

      -- The value that this round stores, and those of the rounds after it.
      both_outputs :
          (n : ℕ) (result : Array Float) (r : Filter fl × (Array Float × ℤ))
          → Rounds n (suc od) next (update result od (filter_run fl value f).1) r
          → (k : ℕ) → od ≤ k
          → k < od + suc n
          → r.1.0 k ≡ weighed_past f k
      both_outputs n result r later k ge lt = elim (Bool-cases (od == k)) [
        | inl this ↦
            let e : od ≡ k = (==_iff od k).0 this in
            later.others k (omega arith)
            ∙ sym (ap (update result od (filter_run fl value f).1) e)
            ∙ update_self result od (filter_run fl value f).1
            ∙ next-output
            ∙ ap (weighed_past f) e
        | inr after ↦
            let more : suc od ≤ k = ground (arith, after, ge) in
            later.outputs k more (omega arith) ∙ next-weighed k
      ]

    filter_rounds-Rounds :
        (n od : ℕ) (f : Filter fl) (result : Array Float) (m : ℤ)
        → Holds s (t + od) f
        → Rounds n od f result (filter_rounds fl n od input step f result m)
    unfolding filter_rounds
    filter_rounds-Rounds zero od f result m h = record {
      outputs = λ k ge lt. absurd (omega arith);
      others = λ k lt. refl;
      beyond = λ k ge. refl;
      holds = let e : t + od + 0 ≡ t + od = omega arith in rw e h;
    }
    filter_rounds-Rounds (suc n) od f result m h =
        let later =
          filter_rounds-Rounds n (suc od) (next od f h)
            (update result od (filter_run fl (value od f h) f).1)
            (if ltb_ℤ m (input (od * step)) then input (od * step) else m) (next-Holds od f h) in
        record {
          outputs = both_outputs od f h n result _ later;
          others = λ k lt.
              later.others k (omega arith)
              ∙ update_ne result od k (filter_run fl (value od f h) f).1 (omega arith);
          beyond = λ k ge.
              later.beyond k (omega arith)
              ∙ update_ne result od k (filter_run fl (value od f h) f).1 (omega arith);
          holds = let e : t + od + suc n ≡ t + suc od + n = omega arith in rw e later.holds;
        }

  -- A call of `filter_run_buf` on a filter, whose length is at most half that of the buffer and which
  -- holds the stream up to value t, with the next `len`
  -- values of the stream, each `step` apart in the input: output k is the weighed sum of the `length`
  -- values before value t + k, however often the buffer was moved back, and the filter then holds
  -- the stream up to value t + len, so a next call goes on where this one ends.
  pub filter_run_buf-Holds :
      (s : Array Float) (t : ℕ) (f : Filter fl) (input : Array ℤ) (result : Array Float)
      (step len : ℕ)
      → Holds s t f
      → ((k : ℕ) → s (t + k) ≡ from_short (input (k * step)))
      → let r = filter_run_buf fl f input result step len in
        ((k : ℕ)
          → k < len
          → r.1.0 k ≡ filter_mac fl (λ i. s (t + k - f.length + i)) f.taps f.length)
        × ((k : ℕ) → len ≤ k → r.1.0 k ≡ result k)
        × Holds s (t + len) r.0
  unfolding filter_run_buf
  filter_run_buf-Holds s t f input result step len h same =
      let start : t + 0 ≡ t = omega arith in
      let rounds = filter_rounds-Rounds s t input step same len 0 f result (pos 0) (rw start h) in
      let held : Holds s (t + len) (filter_rounds fl len 0 input step f result (pos 0)).0 =
        subst (λ (n : ℕ). Holds s n (filter_rounds fl len 0 input step f result (pos 0)).0)
          (omega (arith, start)) rounds.holds in
      (
        λ k lt. rounds.outputs k (omega arith) (omega arith),
        λ k ge. rounds.beyond k (omega arith),
        held,
      )
