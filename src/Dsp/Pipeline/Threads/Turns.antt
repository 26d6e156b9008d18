-- ===== src/Dsp/Pipeline/Threads/Turns.antt =====
-- Runs of the two threads in which each block is taken before the next one is stored.
use rtl_ais_android.Base.{
  ℕ, zero, suc, ◌+◌, ◌≡◌, refl, sym, ap, ◌∙◌, arith, false, Array, List, [], ◌∷◌, ◌++◌,
}
use rtl_ais_android.Base.Int.{ℤ}
use mathlib.Core.Path.{subst}
use mathlib.Core.List.{append_assoc, append-nil}
use rtl_ais_android.Dsp.Pipeline.{Pipeline, store_block, rtlsdr_callback, demod_round}
use rtl_ais_android.Dsp.Pipeline.Levels.{feed}
use rtl_ais_android.Dsp.Pipeline.Stores.{Beyond, Fits, Fits-Kept}
use rtl_ais_android.Dsp.Pipeline.Stores.Rounds.{callback-Kept, demod_round-Kept}
use rtl_ais_android.Dsp.Pipeline.Threads.{
  reading, storing, waiting, woken, free, Action, stored, round, System, signalled, write, called,
  lock_store, store_byte, unlock_store, signal, test_go, wait, lock_block, take, finish, Reach,
  here, next, start,
}
use rtl_ais_android.Dsp.Pipeline.Threads.Sequential.{replay}

-- The log in which each block, the oldest first, is stored and then taken.
unfoldable pub in_turn : ℕ → List (Array ℕ) → List Action
in_turn len [] = []
in_turn len (bytes ∷ later) = in_turn len later ++ (round ∷ (stored bytes len ∷ []))

module _ (up : Array ℤ → Array ℤ → ℕ → ℕ → Array ℤ) where
  replay-append :
      (xs ys : List Action) (p : Pipeline) → replay up (xs ++ ys) p ≡ replay up xs (replay up ys p)
  unfolding replay
  replay-append [] ys p = refl
  replay-append (stored bytes len ∷ xs) ys p = ap (store_block bytes len) (replay-append xs ys p)
  replay-append (round ∷ xs) ys p = ap (demod_round up) (replay-append xs ys p)

  -- One thread that stores and takes each block in turn does what `feed` does.
  pub replay-in_turn :
      ((s t : Array ℤ) (n m : ℕ) → Beyond m t (up s t n m))
      → (len : ℕ) (blocks : List (Array ℕ)) (p : Pipeline) → p.both.len_in ≡ len
      → Fits p
      → replay up (in_turn len blocks) p ≡ feed up blocks p
  unfolding replay in_turn feed rtlsdr_callback
  replay-in_turn beyond len [] p at f = refl
  replay-in_turn beyond len (bytes ∷ later) p at f =
      let stored_p = rtlsdr_callback false bytes p.both.len_in p in
      let first = callback-Kept bytes p in
      let f' = Fits-Kept p stored_p f first in
      let second = demod_round-Kept up beyond stored_p f' in
      let one : demod_round up (store_block bytes len p) ≡ demod_round up stored_p =
        ap (λ n. demod_round up (store_block bytes n p)) (sym at) in
      replay-append (in_turn len later) (round ∷ (stored bytes len ∷ [])) p
      ∙ ap (replay up (in_turn len later)) one
      ∙ replay-in_turn beyond len later (demod_round up stored_p)
          (second.both.len_in ∙ first.both.len_in ∙ at) (Fits-Kept stored_p _ f' second)

  -- Between two blocks, with the demodulation thread at its wait.
  record IsReady (s : System) : Type 0 where
    pub usb : s.usb ≡ reading
    pub demod : s.demod ≡ waiting
    pub lock : s.lock ≡ free
    pub go : s.do_exit ≡ false

  -- While the bytes of a block are stored.
  record IsStoring (bytes : Array ℕ) (len i : ℕ) (log : List Action) (s : System) : Type 0 where
    pub usb : s.usb ≡ storing bytes len i
    pub demod : s.demod ≡ waiting
    pub go : s.do_exit ≡ false
    pub done : s.log ≡ log

  stores_rest :
      (bytes : Array ℕ) (len : ℕ) (log : List Action) (start s : System) (k i : ℕ)
      → i + k ≡ len
      → IsStoring bytes len i log s
      → Reach up false start s
      → (t : System) × IsStoring bytes len len log t × Reach up false start t
  stores_rest bytes len log start s zero i at h r =
      let e : i ≡ len = omega (arith, at) in (s, subst (λ j. IsStoring bytes len j log s) e h, r)
  stores_rest bytes len log start s (suc k) i at h r =
      stores_rest bytes len log start
        (record s { usb = storing bytes len (suc i); pipe = write bytes i s.pipe }) k (suc i)
        (omega (arith, at)) (record { usb = refl; demod = h.demod; go = h.go; done = h.done })
        (next r (store_byte bytes len i h.usb (omega (arith, at))))

  -- A block is stored and taken, and the threads are between two blocks again.
  turn :
      (bytes : Array ℕ) (len : ℕ) (start s : System)
      → IsReady s
      → Reach up false start s
      → (t : System) × IsReady t
        × (t.log ≡ round ∷ (stored bytes len ∷ s.log))
        × Reach up false start t
  turn bytes len start s h r =
      let entering =
        next (next r (called bytes len h.usb h.go)) (lock_store bytes len refl h.lock) in
      let (t, full, reached) =
        stores_rest bytes len s.log start _ len 0 (omega arith)
          (record { usb = refl; demod = h.demod; go = h.go; done = refl }) entering in
      let woke : signalled t.demod ≡ woken = ap signalled full.demod in
      let signals = next (next reached (unlock_store bytes len full.usb)) (signal refl) in
      let takes = next (next signals (lock_block woke refl)) (take refl) in
      let again = next (next (next takes (finish refl)) (test_go refl full.go)) (wait refl) in
      (
        _,
        record { usb = refl; demod = refl; lock = refl; go = full.go },
        ap (λ l. round ∷ (stored bytes len ∷ l)) full.done,
        again,
      )

  turns :
      (len : ℕ) (blocks : List (Array ℕ)) (start s : System)
      → IsReady s
      → Reach up false start s
      → (t : System) × IsReady t × (t.log ≡ in_turn len blocks ++ s.log) × Reach up false start t
  unfolding in_turn
  turns len [] start s h r = (s, h, refl, r)
  turns len (bytes ∷ later) start s h r =
      let (t, ready, log, reached) = turn bytes len start s h r in
      let (u, ready', log', reached') = turns len later start t ready reached in
      (
        u,
        ready',
        log'
            ∙ ap (λ l. in_turn len later ++ l) log
            ∙ sym (append_assoc (in_turn len later) (round ∷ (stored bytes len ∷ [])) s.log),
        reached',
      )

  -- Any sequence of blocks can be stored and taken in turn, without a spurious wake.
  pub all_in_turn :
      (p : Pipeline) (len : ℕ) (blocks : List (Array ℕ))
      → (t : System) × Reach up false (start p) t × (t.usb ≡ reading) × (t.log ≡ in_turn len blocks)
  all_in_turn p len blocks =
      let begun = next (next here (test_go refl refl)) (wait refl) in
      let (t, ready, log, reached) =
        turns len blocks (start p) _ (record { usb = refl; demod = refl; lock = refl; go = refl })
          begun in
      (t, reached, ready.usb, log ∙ append-nil (in_turn len blocks))
