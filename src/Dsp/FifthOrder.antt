-- ===== src/Dsp/FifthOrder.antt =====
-- `fifth_order` of app/src/main/jni/rtl_ais_andro.c: halves the rate of one half of an
-- interleaved I/Q block, in place, through a six-tap low pass.
pub mod Window
pub mod Bounds
pub mod Stream
pub mod Reads
use rtl_ais_android.Base.{ℕ, ◌+◌, ◌-◌, ◌/◌, Array, update}
use rtl_ais_android.Base.Int.{ℤ, ◌+ℤ◌, scale, shr, to_int16}
use rtl_ais_android.Base.Loop.{for_loop}

-- The six values of `hist`, and the variables a to f of the loop.
pub record Taps : Type 0 where
  pub a : ℤ
  pub b : ℤ
  pub c : ℤ
  pub d : ℤ
  pub e : ℤ
  pub f : ℤ

-- (a + (b+e)*5 + (c+d)*10 + f) >> 4, stored into an int16_t. On int16 values the sum is below
-- 2 ^ 20, so `int` holds it.
unfoldable pub weigh : Taps → ℤ
weigh t = to_int16 (shr 4 (t.a +ℤ scale 5 (t.b +ℤ t.e) +ℤ scale 10 (t.c +ℤ t.d) +ℤ t.f))

abbrev pub shift : Taps → ℤ → ℤ → Taps
shift t x y = record { a = t.c; b = t.d; c = t.e; d = t.f; e = x; f = y }

pub record Pass : Type 0 where
  pub taps : Taps
  pub buf : Array ℤ

-- `data` is the pointer `p` into `buf`: 0 for the I values, 1 for the Q values.
pub round : ℕ → ℕ → Pass → Pass
round p i s =
    let t = shift s.taps (s.buf (p + i - 2)) (s.buf (p + i)) in
    record { taps = t; buf = update s.buf (p + i / 2) (weigh t) }

-- The taps before the first store: hist[1] to hist[5] and data[0].
abbrev pub first_taps : ℕ → Taps → Array ℤ → Taps
first_taps p hist buf = record {
  a = hist.b;
  b = hist.c;
  c = hist.d;
  d = hist.e;
  e = hist.f;
  f = buf p;
}

-- The block and the history that the call leaves.
unfoldable pub fifth_order : ℕ → ℕ → Taps → Array ℤ → Pass
unfolding round for_loop
fifth_order p length hist buf =
    let t = first_taps p hist buf in
    for_loop 4 4 length (round p) (record { taps = t; buf = update buf p (weigh t) })
