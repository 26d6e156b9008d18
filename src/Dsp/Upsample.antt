-- ===== src/Dsp/Upsample.antt =====
-- `arbitrary_upsample` of app/src/main/jni/rtl_ais_andro.c: linear interpolation to a higher rate.
-- The mixture of two samples in `double` is a parameter; the walk over the input is not.
pub mod Positions
pub mod Stores
pub mod Reads
use rtl_ais_android.Base.{
  ℕ, zero, suc, ◌+◌, ◌-◌, ltb, leb, ◌&&◌, Bool, true, false, Array, update, if◌then◌else◌,
}
use rtl_ais_android.Base.Int.{ℤ}

-- The variables of the loop.
pub record Walk : Type 0 where
  pub i : ℕ
  pub j : ℕ
  pub tick : ℕ
  pub buf2 : Array ℤ

-- How the loop ends: at its end; by a read beyond the `len1` samples of `buf1`; or it takes more than
-- the fuel.
pub data Ended : Type 0 where
  done : Array ℤ → Ended
  bad_read : Ended
  out_of_fuel : Ended

-- The tests at the end of a round, after `tick += len1`: the next sample, then the last one.
unfoldable pub advance : ℕ → ℕ → ℕ → ℕ → ℕ × ℕ
advance len1 len2 i tick =
    let (i', tick') = if ltb len2 tick then (i + 1, tick - len2) else (i, tick) in
    if leb len1 i' then (len1 - 1, len2) else (i', tick')

-- `mix tick len2 a b` is (int16_t)(a * (1 - frac) + b * frac), where frac is tick / len2.
module _ (mix : ℕ → ℕ → ℤ → ℤ → ℤ) (buf1 : Array ℤ) (len1 len2 : ℕ) where
  unfoldable pub walk_round : Walk → Walk
  unfolding advance
  walk_round w =
      let (i, tick) = advance len1 len2 w.i (w.tick + len1) in
      record {
        i = i;
        j = w.j + 1;
        tick = tick;
        buf2 = update w.buf2 w.j (mix w.tick len2 (buf1 (w.i - 1)) (buf1 w.i));
      }

  unfoldable pub walk_loop : ℕ → Walk → Ended
  unfolding walk_round
  walk_loop zero w = out_of_fuel
  walk_loop (suc fuel) w =
      let rest = walk_loop fuel (walk_round w) in
      if ltb w.j len2 then (if leb 1 w.i && ltb w.i len1 then rest else bad_read) else done w.buf2

  unfoldable pub arbitrary_upsample : ℕ → Array ℤ → Ended
  unfolding walk_loop
  arbitrary_upsample fuel buf2 = walk_loop fuel (record { i = 1; j = 0; tick = 0; buf2 = buf2 })

-- What `buf2` holds afterwards: the loop ends within its fuel; where it would read beyond the samples,
-- what follows is not defined, and the buffer is given back as it was.
abbrev pub outputs : Ended → Array ℤ → Array ℤ
outputs (done out) buf2 = out
outputs bad_read buf2 = buf2
outputs out_of_fuel buf2 = buf2

unfoldable pub upsampled : (ℕ → ℕ → ℤ → ℤ → ℤ) → Array ℤ → Array ℤ → ℕ → ℕ → Array ℤ
unfolding arbitrary_upsample
upsampled mix buf1 buf2 len1 len2 =
    outputs (arbitrary_upsample mix buf1 len1 len2 (len2 + 1) buf2) buf2
