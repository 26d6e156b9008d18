-- ===== src/Filter/Tests.antt =====
-- The filter at a short signal, with integers in the place of floating point.
use rtl_ais_android.Base.{ℕ, ◌+◌, ◌-◌, ◌*◌, ◌≤◌, ◌<◌, ◌≡◌, refl, arith, Array, ltb, if◌then◌else◌}
use rtl_ais_android.Base.Int.{ℤ, pos, ◌+ℤ◌, ◌*ℤ◌}
use rtl_ais_android.Filter.{Floats, Filter, filter_mac, filter_init, filter_run_buf}
use rtl_ais_android.Filter.Window.{Holds, filter_run_buf-Holds}

abbrev integers : Floats
integers = record {
  Float = ℤ;
  nothing = pos 0;
  add = λ a b. a +ℤ b;
  mul = λ a b. a *ℤ b;
  from_short = λ z. z;
}

abbrev taps : Array ℤ
taps i = pos (i + 1)

abbrev input : Array ℤ
input i = pos (i * i)

-- Three zeros, then every second value of the input.
abbrev signal : Array ℤ
signal j = if ltb j 3 then pos 0 else input ((j - 3) * 2)

abbrev fresh : Filter integers
fresh = record { length = 3; pointer = 3; taps = taps; buffer = λ i. pos 0 }

fresh_lem : filter_init integers 3 taps ≡ fresh
unfolding filter_init
fresh_lem = refl

fresh-Holds : Holds integers signal 3 fresh
fresh-Holds = record {
  short = omega arith;
  enough = omega arith;
  low = omega arith;
  high = omega arith;
  past = λ i lt. ground arith;
}

signal-input : (k : ℕ) → signal (3 + k) ≡ input (k * 2)
signal-input k = ground arith

filter_run_buf-Holds_example :
    let r = filter_run_buf integers fresh input input 2 2000 in
    ((k : ℕ) → k < 2000 → r.1.0 k ≡ filter_mac integers (λ i. signal (3 + k - 3 + i)) taps 3)
    × ((k : ℕ) → 2000 ≤ k → r.1.0 k ≡ input k)
    × Holds integers signal 2003 r.0
filter_run_buf-Holds_example =
    filter_run_buf-Holds integers signal 3 fresh input input 2 2000 fresh-Holds signal-input
