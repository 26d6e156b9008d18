-- ===== src/Dsp/Pipeline/Threads.antt =====
-- The two threads that share a block, in app/src/main/jni/rtl_ais_andro.c: the one of `rtl_ais_main`,
-- which runs `rtlsdr_callback` inside `rtlsdr_read_async`, and the one of `demod_thread_fn`. They
-- share `both.buf` under the lock `both.rw`, the condition `ready`, and `do_exit`.
pub mod Sequential
pub mod Rounds
pub mod Repeat
pub mod Turns
use rtl_ais_android.Base.{ℕ, suc, ◌≡◌, ◌<◌, Bool, true, false, Array, List, [], ◌∷◌}
use rtl_ais_android.Base.Int.{ℤ}
use rtl_ais_android.Dsp.Pipeline.{
  Pipeline, store_round, store_block, take_block, finish_block, demod_round,
}

-- Where the thread of `rtl_ais_main` stands. `storing bytes len i` holds the lock, with i of the
-- `len` bytes stored.
pub data Usb : Type 0 where
  reading : Usb
  entered : Array ℕ → ℕ → Usb
  storing : Array ℕ → ℕ → ℕ → Usb
  unlocked : Usb
  returned : Usb
  finished : Usb

-- Where the other thread stands. `tested` is between the test of `do_exit` and the wait, `locked`
-- holds the lock, and `outside` has released it with the block copied out.
pub data Demod : Type 0 where
  top tested waiting woken locked outside ended : Demod

pub data Lock : Type 0 where
  free by_usb by_demod : Lock

-- What was done to the shared block, as one would do it with one thread.
pub data Action : Type 0 where
  stored : Array ℕ → ℕ → Action
  round : Action

-- The log has the newest action first; `signals` counts the signals of `ready`.
pub record System : Type 0 where
  pub usb : Usb
  pub demod : Demod
  pub lock : Lock
  pub do_exit : Bool
  pub pipe : Pipeline
  pub signals : ℕ
  pub log : List Action

-- A signal wakes the thread that waits, and is lost where none does. The mutex `ready_m` is held
-- only inside the two macros, so each is one step.
abbrev pub signalled : Demod → Demod
signalled waiting = woken
signalled d = d

abbrev pub write : Array ℕ → ℕ → Pipeline → Pipeline
write bytes i p = record p { both = record p.both { buf = store_round bytes i p.both.buf } }

module _ (arbitrary_upsample : Array ℤ → Array ℤ → ℕ → ℕ → Array ℤ) where
  -- The steps of the two threads in any order; anyone may set `do_exit`. `spurious` says whether the
  -- wait may also end without a signal, which POSIX allows.
  pub data Step (spurious : Bool) (s : System) : System → Type 0 where
    called :
        (bytes : Array ℕ) (len : ℕ)
        → s.usb ≡ reading
        → s.do_exit ≡ false
        → Step spurious s (record s { usb = entered bytes len })
    lock_store :
        (bytes : Array ℕ) (len : ℕ)
        → s.usb ≡ entered bytes len
        → s.lock ≡ free
        → Step spurious s (record s { usb = storing bytes len 0; lock = by_usb })
    store_byte :
        (bytes : Array ℕ) (len i : ℕ)
        → s.usb ≡ storing bytes len i
        → i < len
        → Step spurious s
            (record s { usb = storing bytes len (suc i); pipe = write bytes i s.pipe })
    unlock_store :
        (bytes : Array ℕ) (len : ℕ)
        → s.usb ≡ storing bytes len len
        → Step spurious s (record s { usb = unlocked; lock = free; log = stored bytes len ∷ s.log })
    signal :
        s.usb ≡ unlocked
        → Step spurious s
            (record s { usb = reading; demod = signalled s.demod; signals = suc s.signals })
    read_ends : s.usb ≡ reading → Step spurious s (record s { usb = returned })
    last_signal :
        s.usb ≡ returned
        → Step spurious s
            (record s { usb = finished; demod = signalled s.demod; signals = suc s.signals })
    stop : s.do_exit ≡ false → Step spurious s (record s { do_exit = true })
    test_go : s.demod ≡ top → s.do_exit ≡ false → Step spurious s (record s { demod = tested })
    test_end : s.demod ≡ top → s.do_exit ≡ true → Step spurious s (record s { demod = ended })
    wait : s.demod ≡ tested → Step spurious s (record s { demod = waiting })
    wake_alone : spurious ≡ true → s.demod ≡ waiting → Step spurious s (record s { demod = woken })
    lock_block :
        s.demod ≡ woken
        → s.lock ≡ free
        → Step spurious s (record s { demod = locked; lock = by_demod })
    take :
        s.demod ≡ locked
        → Step spurious s (record s {
          demod = outside;
          lock = free;
          pipe = take_block arbitrary_upsample s.pipe;
          log = round ∷ s.log;
        })
    finish :
        s.demod ≡ outside
        → Step spurious s (record s { demod = top; pipe = finish_block arbitrary_upsample s.pipe })

  pub data Reach (spurious : Bool) (s : System) : System → Type 0 where
    here : Reach spurious s s
    next : {t u : System} → Reach spurious s t → Step spurious t u → Reach spurious s u

-- When the threads start.
abbrev pub start : Pipeline → System
start p = record {
  usb = reading;
  demod = top;
  lock = free;
  do_exit = false;
  pipe = p;
  signals = 0;
  log = [];
}
