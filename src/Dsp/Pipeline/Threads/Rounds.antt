-- ===== src/Dsp/Pipeline/Threads/Rounds.antt =====
-- How many rounds the demodulation thread makes, and when it ends.
use rtl_ais_android.Base.{
  ℕ, suc, ◌+◌, ◌≤◌, ◌≡◌, refl, ap, arith, Bool, true, false, Array, List, [], ◌∷◌,
}
use rtl_ais_android.Base.Int.{ℤ}
use rtl_ais_android.Dsp.Pipeline.{Pipeline}
use rtl_ais_android.Dsp.Pipeline.Threads.{
  Usb, reading, unlocked, finished, Demod, tested, waiting, woken, locked, Action, stored, round,
  System, signalled, Step, called, lock_store, store_byte, unlock_store, signal, read_ends,
  last_signal, stop, test_go, test_end, wait, wake_alone, lock_block, take, finish, Reach, here,
  next, start,
}

-- The rounds and the blocks of a log.
abbrev pub rounds : List Action → ℕ
rounds [] = 0
rounds (round ∷ log) = suc (rounds log)
rounds (stored bytes len ∷ log) = rounds log

abbrev pub blocks : List Action → ℕ
blocks [] = 0
blocks (round ∷ log) = blocks log
blocks (stored bytes len ∷ log) = suc (blocks log)

-- A round that a signal has called for and that is not made.
abbrev due : Demod → ℕ
due woken = 1
due locked = 1
due d = 0

abbrev unsignalled : Usb → ℕ
unsignalled unlocked = 1
unsignalled u = 0

abbrev pub extra : Usb → ℕ
extra finished = 1
extra u = 0

-- The rounds that may follow before the next test of `do_exit`.
abbrev before_test : Demod → ℕ
before_test tested = 1
before_test waiting = 1
before_test woken = 1
before_test locked = 1
before_test d = 0

module _ (up : Array ℤ → Array ℤ → ℕ → ℕ → Array ℤ) where
  record Counted (s : System) : Type 0 where
    pub called_for : rounds s.log + due s.demod ≤ s.signals
    pub sent : s.signals + unsignalled s.usb ≡ blocks s.log + extra s.usb

  due-signalled : (d : Demod) → due (signalled d) ≤ due d + 1
  due-signalled d = ground arith

  Step-Counted : {s t : System} → Step up false s t → Counted s → Counted t
  Step-Counted (called bytes len e go) h = ground arith
  Step-Counted (lock_store bytes len e f) h = ground arith
  Step-Counted (store_byte bytes len i e lt) h = ground arith
  Step-Counted (unlock_store bytes len e) h = ground arith
  Step-Counted {s} (signal e) h = ground (arith, due-signalled s.demod)
  Step-Counted (read_ends e) h = ground arith
  Step-Counted {s} (last_signal e) h = ground (arith, due-signalled s.demod)
  Step-Counted (stop e) h = ground arith
  Step-Counted (test_go e go) h = ground arith
  Step-Counted (test_end e go) h = ground arith
  Step-Counted (wait e) h = ground arith
  Step-Counted (wake_alone sp e) h = absurd cc
  Step-Counted (lock_block e f) h = ground arith
  Step-Counted (take e) h = ground arith
  Step-Counted (finish e) h = ground arith

  Reach-Counted : {p : Pipeline} {s : System} → Reach up false (start p) s → Counted s
  Reach-Counted here = record { called_for = omega arith; sent = refl }
  Reach-Counted (next r st) = Step-Counted st (Reach-Counted r)

  -- Without spurious wakes, there are never more rounds than blocks stored, but for one more that the
  -- last signal of the run may bring.
  pub Reach-rounds :
      {p : Pipeline} {s : System}
      → Reach up false (start p) s
      → rounds s.log ≤ blocks s.log + extra s.usb
  Reach-rounds r = let h = Reach-Counted r in omega (arith, h.called_for, h.sent)

  -- What holds from a stop on.
  record Stopping (limit : ℕ) (s : System) : Type 0 where
    pub stopped : s.do_exit ≡ true
    pub few : rounds s.log + before_test s.demod ≤ limit

  before_test-signalled : (d : Demod) → before_test (signalled d) ≡ before_test d
  before_test-signalled d = ground arith

  Step-Stopping :
      {b : Bool} {limit : ℕ} {s t : System} → Step up b s t → Stopping limit s → Stopping limit t
  Step-Stopping {s} (signal e) h = ground (arith, before_test-signalled s.demod)
  Step-Stopping {s} (last_signal e) h = ground (arith, before_test-signalled s.demod)
  Step-Stopping (called bytes len e go) h = ground arith
  Step-Stopping (lock_store bytes len e f) h = ground arith
  Step-Stopping (store_byte bytes len i e lt) h = ground arith
  Step-Stopping (unlock_store bytes len e) h = ground arith
  Step-Stopping (read_ends e) h = ground arith
  Step-Stopping (stop e) h = ground arith
  Step-Stopping (test_go e go) h = ground arith
  Step-Stopping (test_end e go) h = ground arith
  Step-Stopping (wait e) h = ground arith
  Step-Stopping (wake_alone sp e) h = ground arith
  Step-Stopping (lock_block e f) h = ground arith
  Step-Stopping (take e) h = ground arith
  Step-Stopping (finish e) h = ground arith

  Reach-Stopping :
      {b : Bool} {limit : ℕ} {s t : System} → Reach up b s t → Stopping limit s → Stopping limit t
  Reach-Stopping here h = h
  Reach-Stopping (next r st) h = Step-Stopping st (Reach-Stopping r h)

  before_test-le : (d : Demod) → before_test d ≤ 1
  before_test-le d = ground arith

  -- Once `do_exit` is set it stays set, and whatever the two threads do from there, with spurious wakes
  -- or without, the demodulation thread makes at most one more round.
  pub Reach-stops :
      {b : Bool} {s t : System}
      → s.do_exit ≡ true
      → Reach up b s t
      → (t.do_exit ≡ true) × (rounds t.log ≤ rounds s.log + 1)
  Reach-stops {s = s} e r =
      let h =
        Reach-Stopping {limit = rounds s.log + before_test s.demod} r
          (record { stopped = e; few = omega arith }) in
      (h.stopped, omega (arith, h.few, before_test-le s.demod))

  -- The run has ended, and the demodulation thread still waits.
  abbrev pub hung : System → System
  hung s = record s { usb = finished; demod = waiting; do_exit = true; signals = suc s.signals }

  hung-stuck : (s : System) {u : System} → Step up false (hung s) u → ⊥
  hung-stuck s (called bytes len e go) = cc
  hung-stuck s (lock_store bytes len e f) = cc
  hung-stuck s (store_byte bytes len i e lt) = cc
  hung-stuck s (unlock_store bytes len e) = cc
  hung-stuck s (signal e) = cc
  hung-stuck s (read_ends e) = cc
  hung-stuck s (last_signal e) = cc
  hung-stuck s (stop e) = cc
  hung-stuck s (test_go e go) = cc
  hung-stuck s (test_end e go) = cc
  hung-stuck s (wait e) = cc
  hung-stuck s (wake_alone sp e) = cc
  hung-stuck s (lock_block e f) = cc
  hung-stuck s (take e) = cc
  hung-stuck s (finish e) = cc

  -- A signal can be lost: from a state in which the demodulation thread has tested `do_exit` but does
  -- not yet wait, and the other thread is between two callbacks, a state can be reached, without a
  -- spurious wake, in which the stop is asked for, the run has sent its last signal, the demodulation
  -- thread waits, and no step is possible any more.
  pub may_hang :
      (s : System)
      → s.usb ≡ reading
      → s.demod ≡ tested
      → s.do_exit ≡ false
      → (t : System) × Reach up false s t
        × (t.do_exit ≡ true)
        × (t.demod ≡ waiting)
        × ((u : System) → Step up false t u → ⊥)
  may_hang s r d e = (
    hung s,
    next (next (next (next here (read_ends r)) (stop e)) (last_signal refl))
        (wait (ap signalled d)),
    refl,
    refl,
    λ u st. hung-stuck s st,
  )
