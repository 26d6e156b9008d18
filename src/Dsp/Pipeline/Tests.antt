-- ===== src/Dsp/Pipeline/Tests.antt =====
-- The theorems on the two threads at a short run.
use rtl_ais_android.Base.{
  ℕ, ◌+◌, ◌*◌, ◌/◌, ◌≤◌, ◌<◌, ◌≡◌, refl, arith, ltb, if◌then◌else◌, true, false, Array, [], ◌∷◌,
}
use rtl_ais_android.Base.Int.{ℤ}
use rtl_ais_android.Dsp.Tests.{samples, stage, demod}
use rtl_ais_android.Dsp.Pipeline.{Pipeline, take_block, finish_block}
use rtl_ais_android.Dsp.Pipeline.Threads.{
  entered, unlocked, woken, tested, waiting, outside, ended, free, stored, round, System, write,
  Step, called, lock_store, store_byte, unlock_store, signal, test_go, test_end, wait, lock_block,
  take, finish, Reach, here, next, start,
}
use rtl_ais_android.Dsp.Pipeline.Threads.Sequential.{
  replay, settled, partial, IsApart, Reach-replay,
}
use rtl_ais_android.Dsp.Pipeline.Threads.Repeat.{may_repeat}
use rtl_ais_android.Dsp.Pipeline.Threads.Rounds.{
  rounds, blocks, extra, Reach-rounds, Reach-stops, may_hang,
}

-- The value below, for the values in between.
abbrev pub hold : Array ℤ → Array ℤ → ℕ → ℕ → Array ℤ
hold source target n m i = if ltb i m then source (i * n / m) else target i

abbrev pub pipe : Pipeline
pipe = record {
  both = stage;
  left = stage;
  right = stage;
  left_demod = demod;
  right_demod = demod;
  buf_left = samples;
  buf_right = samples;
  result = samples;
  bl_len = 6;
  br_len = 6;
  dc_filter = true;
  handed = [];
}

abbrev bytes : Array ℕ
bytes n = n + 120

-- The other thread waits, is signalled with a block of two bytes, and takes it; the next block is
-- entered before it is finished.
abbrev last : System
last = record {
  usb = entered bytes 16;
  demod = outside;
  lock = free;
  do_exit = false;
  pipe = take_block hold (write bytes 1 (write bytes 0 pipe));
  signals = 1;
  log = round ∷ (stored bytes 2 ∷ []);
}

one_block : Reach hold false (start pipe) last
one_block =
    let first : 0 < 2 = omega arith in
    let second : 1 < 2 = omega arith in
    let waits = next (next here (test_go refl refl)) (wait refl) in
    let holds = next (next waits (called bytes 2 refl refl)) (lock_store bytes 2 refl refl) in
    let full =
      next (next holds (store_byte bytes 2 0 refl first)) (store_byte bytes 2 1 refl second) in
    let woke = next (next full (unlock_store bytes 2 refl)) (signal refl) in
    next (next (next woke (lock_block refl refl)) (take refl)) (called bytes 16 refl refl)

Reach-replay_example :
    IsApart hold last.usb last.demod
    × (settled hold last.demod last.pipe ≡ partial hold last.usb (replay hold last.log pipe))
Reach-replay_example = Reach-replay hold one_block

Reach-rounds_example : rounds last.log ≤ blocks last.log + extra last.usb
Reach-rounds_example = Reach-rounds hold one_block

-- A stop while that block is finished.
abbrev stopped : System
stopped = record last { do_exit = true }

abbrev end : System
end = record last { do_exit = true; demod = ended; pipe = finish_block hold last.pipe }

ends : Reach hold false stopped end
ends = next (next here (finish refl)) (test_end refl refl)

Reach-stops_example : (end.do_exit ≡ true) × (rounds end.log ≤ rounds stopped.log + 1)
Reach-stops_example = Reach-stops hold refl ends

-- Just after the test of `do_exit`.
abbrev tested_once : System
tested_once = record (start pipe) { demod = tested }

may_hang_example :
    (t : System) × Reach hold false tested_once t
    × (t.do_exit ≡ true)
    × (t.demod ≡ waiting)
    × ((u : System) → Step hold false t u → ⊥)
may_hang_example = may_hang hold tested_once refl refl refl

-- The first block has woken the thread, and the second one is stored.
abbrev second_stored : System
second_stored = record {
  usb = unlocked;
  demod = woken;
  lock = free;
  do_exit = false;
  pipe = write bytes 0 (write bytes 0 pipe);
  signals = 1;
  log = stored bytes 1 ∷ (stored bytes 1 ∷ []);
}

may_repeat_example :
    (t : System) × Reach hold false second_stored t
    × (t.log ≡ round ∷ (round ∷ (stored bytes 1 ∷ (stored bytes 1 ∷ []))))
may_repeat_example = may_repeat hold second_stored refl refl refl refl
