-- ===== src/Dsp/Pipeline/Threads/Repeat.antt =====
-- The rounds that a signal leads to which comes after its block is unlocked.
use rtl_ais_android.Base.{ℕ, ◌≡◌, refl, false, Array, ◌∷◌}
use rtl_ais_android.Base.Int.{ℤ}
use rtl_ais_android.Dsp.Pipeline.Threads.{
  unlocked, woken, free, round, System, signal, test_go, wait, lock_block, take, finish, Reach,
  here, next,
}

module _ (up : Array ℤ → Array ℤ → ℕ → ℕ → Array ℤ) where
  -- From a state in which the demodulation thread is woken but has not taken the lock, and the other
  -- thread has stored a next block but not yet signalled, a state can be reached, without a spurious
  -- wake, in which two rounds were made and no block was stored before or between them.
  pub may_repeat :
      (s : System)
      → s.usb ≡ unlocked
      → s.demod ≡ woken
      → s.lock ≡ free
      → s.do_exit ≡ false
      → (t : System) × Reach up false s t × (t.log ≡ round ∷ (round ∷ s.log))
  may_repeat s u d l e = (
    _,
    next
        (next
          (next
            (next
              (next (next (next (next here (lock_block d l)) (take refl)) (finish refl))
                (test_go refl e))
              (wait refl))
            (signal u))
          (lock_block refl refl))
        (take refl),
    refl,
  )
