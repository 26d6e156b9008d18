-- ===== src/Filter.antt =====
-- app/src/main/jni/aisdecoder/lib/filter.c: the FIR filter of the sound decoder, which keeps its past
-- in a buffer that it moves back to its start when it is full. The arithmetic of `float` is a
-- parameter.
pub mod Window
mod Tests
use rtl_ais_android.Base.{ℕ, zero, suc, ◌+◌, ◌-◌, ◌*◌, ◌==◌, ltb, Array, update, if◌then◌else◌}
use rtl_ais_android.Base.Int.{ℤ, pos, ltb_ℤ}

-- BufferLen
abbrev pub buffer_len : ℕ
buffer_len = 1024

-- Zero, the sum, the product, and the conversion of a `short`.
pub record Floats : Type 1 where
  pub Float : Type 0
  pub nothing : Float
  pub add : Float → Float → Float
  pub mul : Float → Float → Float
  pub from_short : ℤ → Float

module _ (fl : Floats) where
  open fl use {Float, nothing, add, mul, from_short}

  -- `struct filter`.
  pub record Filter : Type 0 where
    pub length : ℕ
    pub pointer : ℕ
    pub taps : Array Float
    pub buffer : Array Float

  -- The loop of `filter_mac`, over pointers to `a` and `b`.
  unfoldable pub filter_mac : Array Float → Array Float → ℕ → Float
  filter_mac a b zero = nothing
  filter_mac a b (suc size) = add (filter_mac a b size) (mul (a size) (b size))

  -- The buffer of a new filter is all zeros.
  unfoldable pub filter_init : ℕ → Array Float → Filter
  filter_init len taps = record { length = len; pointer = len; taps = taps; buffer = λ i. nothing }

  -- memcpy(buffer, buffer + BufferLen - length, length)
  pub moved_back : ℕ → Array Float → Array Float
  moved_back length buffer i = if ltb i length then buffer (buffer_len - length + i) else buffer i

  -- The test for the end of the buffer, when one more value is stored.
  pub advance : Filter → Filter
  unfolding moved_back
  advance f =
      if f.pointer + 1 == buffer_len
      then record f { buffer = moved_back f.length f.buffer; pointer = f.length }
      else record f { pointer = f.pointer + 1 }

  -- What the filter computes where the pointer stands: the values before it, without the new one.
  pub read_out : Filter → Float
  unfolding filter_mac
  read_out f = filter_mac (λ i. f.buffer (f.pointer - f.length + i)) f.taps f.length

  -- One value: the filter and the output.
  unfoldable pub filter_run : Float → Filter → Filter × Float
  unfolding advance read_out
  filter_run value f =
      let f' = record f { buffer = update f.buffer f.pointer value } in (advance f', read_out f')

  -- The loop of `filter_run_buf`: `od` values are done, and `n` are left. The parts are the filter,
  -- the output and the largest input.
  pub filter_rounds : ℕ → ℕ → Array ℤ → ℕ → Filter → Array Float → ℤ → Filter × (Array Float × ℤ)
  unfolding filter_run
  filter_rounds zero od input step f result maxval = (f, (result, maxval))
  filter_rounds (suc n) od input step f result maxval =
      let value = input (od * step) in
      let r = filter_run (from_short value) f in
      filter_rounds n (suc od) input step r.0 (update result od r.1)
        (if ltb_ℤ maxval value then value else maxval)

  unfoldable pub filter_run_buf :
      Filter → Array ℤ → Array Float → ℕ → ℕ → Filter × (Array Float × ℤ)
  unfolding filter_rounds
  filter_run_buf f input result step len = filter_rounds len 0 input step f result (pos 0)
