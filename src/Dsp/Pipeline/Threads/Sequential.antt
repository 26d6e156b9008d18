-- ===== src/Dsp/Pipeline/Threads/Sequential.antt =====
-- The interleavings of the two threads, against one thread that does the same.
use Prim.{tt}
use rtl_ais_android.Base.{ℕ, suc, ◌≡◌, refl, sym, ap, ◌∙◌, arith, Bool, Array, List, [], ◌∷◌}
use rtl_ais_android.Base.Int.{ℤ}
use rtl_ais_android.Base.Loop.{for_loop-suc}
use rtl_ais_android.Dsp.Pipeline.{
  Pipeline, store_round, store_block, take_block, finish_block, demod_round,
}
use rtl_ais_android.Dsp.Pipeline.Threads.{
  Usb, reading, entered, storing, unlocked, returned, finished, Demod, top, tested, waiting, woken,
  locked, outside, ended, Lock, free, by_usb, by_demod, Action, stored, round, System, signalled,
  write, Step, called, lock_store, store_byte, unlock_store, signal, read_ends, last_signal, stop,
  test_go, test_end, wait, wake_alone, lock_block, take, finish, Reach, here, next, start,
}

module _ (up : Array ℤ → Array ℤ → ℕ → ℕ → Array ℤ) where
  -- One thread: the actions one after the other, the newest last.
  unfoldable pub replay : List Action → Pipeline → Pipeline
  replay [] p = p
  replay (stored bytes len ∷ log) p = store_block bytes len (replay log p)
  replay (round ∷ log) p = demod_round up (replay log p)

  -- The pipeline once the round that is under way is done.
  abbrev pub settled : Demod → Pipeline → Pipeline
  settled outside p = finish_block up p
  settled d p = p

  -- What is stored of the block that is under way.
  abbrev pub partial : Usb → Pipeline → Pipeline
  partial (storing bytes len i) p = store_block bytes i p
  partial u p = p

  abbrev owner : Usb → Demod → Lock
  owner (storing bytes len i) d = by_usb
  owner u locked = by_demod
  owner u d = free

  write-finish :
      (bytes : Array ℕ) (i : ℕ) (p : Pipeline)
      → finish_block up (write bytes i p) ≡ write bytes i (finish_block up p)
  unfolding finish_block
  write-finish bytes i p = refl

  write-store :
      (bytes : Array ℕ) (i : ℕ) (p : Pipeline)
      → write bytes i (store_block bytes i p) ≡ store_block bytes (suc i) p
  unfolding store_block
  write-store bytes i p =
      ap (λ b. record p { both = record p.both { buf = b } })
        (sym (for_loop-suc (store_round bytes) i p.both.buf))

  store_none : (bytes : Array ℕ) (p : Pipeline) → store_block bytes 0 p ≡ p
  unfolding store_block
  store_none bytes p = refl

  settled-write :
      (d : Demod) (bytes : Array ℕ) (i : ℕ) (p : Pipeline)
      → settled d (write bytes i p) ≡ write bytes i (settled d p)
  settled-write top bytes i p = refl
  settled-write tested bytes i p = refl
  settled-write waiting bytes i p = refl
  settled-write woken bytes i p = refl
  settled-write locked bytes i p = refl
  settled-write outside bytes i p = write-finish bytes i p
  settled-write ended bytes i p = refl

  settled-signalled : (d : Demod) (p : Pipeline) → settled (signalled d) p ≡ settled d p
  settled-signalled d p = ground arith

  -- The lock keeps the two threads from the block at the same time.
  abbrev pub IsApart : Usb → Demod → Type 0
  IsApart (storing bytes len i) locked = ⊥
  IsApart u d = Unit {0}

  record Inv (p : Pipeline) (s : System) : Type 0 where
    pub held : s.lock ≡ owner s.usb s.demod
    pub apart : IsApart s.usb s.demod
    pub same : settled s.demod s.pipe ≡ partial s.usb (replay s.log p)

  entered-IsApart :
      (bytes : Array ℕ) (len : ℕ) (d : Demod)
      → owner (entered bytes len) d ≡ free
      → IsApart (storing bytes len 0) d
  entered-IsApart bytes len d h = ground arith

  locked-IsApart : (u : Usb) → owner u woken ≡ free → IsApart u locked
  locked-IsApart u h = ground arith

  locked_owner : (u : Usb) → owner u woken ≡ free → by_demod ≡ owner u locked
  locked_owner u h = ground arith

  taken_owner : (u : Usb) → IsApart u locked → free ≡ owner u outside
  taken_owner u h = ground arith

  taken-IsApart : (u : Usb) → IsApart u outside
  taken-IsApart u = ground arith

  -- The block is taken whole, since nothing of a next one is stored.
  taken :
      (u : Usb)
      → IsApart u locked
      → (q p : Pipeline) → p ≡ partial u q
      → finish_block up (take_block up p) ≡ partial u (demod_round up q)
  unfolding demod_round
  taken (storing bytes len i) h q p e = absurd h
  taken reading h q p e = ap (λ x. finish_block up (take_block up x)) e
  taken (entered bytes len) h q p e = ap (λ x. finish_block up (take_block up x)) e
  taken unlocked h q p e = ap (λ x. finish_block up (take_block up x)) e
  taken returned h q p e = ap (λ x. finish_block up (take_block up x)) e
  taken finished h q p e = ap (λ x. finish_block up (take_block up x)) e

  Step-Inv : {b : Bool} {p : Pipeline} {s t : System} → Step up b s t → Inv p s → Inv p t
  unfolding replay
  Step-Inv (called bytes len e go) h = ground arith
  Step-Inv {p} {s} (lock_store bytes len e f) h = record {
    held = refl;
    apart = entered-IsApart bytes len s.demod (sym (rw e at h.held) ∙ f);
    same = rw e at h.same ∙ sym (store_none bytes (replay s.log p));
  }
  Step-Inv {p} {s} (store_byte bytes len i e lt) h = record {
    held = ground arith;
    apart = rw e at h.apart;
    same =
        settled-write s.demod bytes i s.pipe
        ∙ ap (write bytes i) (rw e at h.same)
        ∙ write-store bytes i (replay s.log p);
  }
  Step-Inv (unlock_store bytes len e) h = ground arith
  Step-Inv {s} (signal e) h = record {
    held = ground arith;
    apart = ground arith;
    same = settled-signalled s.demod s.pipe ∙ rw e at h.same;
  }
  Step-Inv (read_ends e) h = ground arith
  Step-Inv {s} (last_signal e) h = record {
    held = ground arith;
    apart = ground arith;
    same = settled-signalled s.demod s.pipe ∙ rw e at h.same;
  }
  Step-Inv (stop e) h = record { held = h.held; apart = h.apart; same = h.same }
  Step-Inv (test_go e go) h = ground arith
  Step-Inv (test_end e go) h = ground arith
  Step-Inv (wait e) h = ground arith
  Step-Inv (wake_alone sp e) h = ground arith
  Step-Inv {s} (lock_block e f) h = record {
    held = locked_owner s.usb (sym (rw e at h.held) ∙ f);
    apart = locked-IsApart s.usb (sym (rw e at h.held) ∙ f);
    same = rw e at h.same;
  }
  Step-Inv {p} {s} (take e) h = record {
    held = taken_owner s.usb (rw e at h.apart);
    apart = taken-IsApart s.usb;
    same = taken s.usb (rw e at h.apart) (replay s.log p) s.pipe (rw e at h.same);
  }
  Step-Inv (finish e) h = ground arith

  start-Inv : (p : Pipeline) → Inv p (start p)
  unfolding replay
  start-Inv p = record { held = refl; apart = tt; same = refl }

  Reach-Inv : {b : Bool} {p : Pipeline} {s : System} → Reach up b (start p) s → Inv p s
  Reach-Inv {p = p} here = start-Inv p
  Reach-Inv (next r st) = Step-Inv st (Reach-Inv r)

  -- Whatever the order of the steps, with spurious wakes or without: the thread that decimates the
  -- block never holds it while bytes are stored; and the pipeline, with the round under way
  -- brought to its end, is the one that a single thread leaves which stores the blocks and makes the
  -- rounds in the order of the log, and then stores what is there of the block under way.
  pub Reach-replay :
      {b : Bool} {p : Pipeline} {s : System}
      → Reach up b (start p) s
      → IsApart s.usb s.demod × (settled s.demod s.pipe ≡ partial s.usb (replay s.log p))
  Reach-replay r = let h = Reach-Inv r in (h.apart, h.same)
