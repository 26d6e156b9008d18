-- ===== src/Command/Stop.antt =====
-- How the worker ends, and what happens when the peer goes away.
use mathlib.Core.List.{append-nil}
use rtl_ais_android.Base.{
  ℕ, zero, suc, ◌<◌, ◌≡◌, refl, arith, ◌||◌, ◌==◌, Bool, if◌then◌else◌, true, false, List, [], ◌∷◌,
  ◌++◌, length, ap, ◌∙◌, replicate,
}
use rtl_ais_android.Tuning.{Call, Device, cancel_async}
use rtl_ais_android.Command.{Effect, calls, stop, bad_read, dispatch}
use rtl_ais_android.Command.Worker.{
  closed, Wake, running, exited, Worker, sighandler, obey, wake, run, command_of, is_failed,
  is_running, arrived, faulted,
}

module _ (dev : Device) where
  wake-exited : (w : Wake) (s : Worker) → s.status ≡ exited → wake dev w s ≡ s
  unfolding wake
  wake-exited w s h = ground arith

  wake-leaves :
      (w : Wake) (s : Worker)
      → s.status ≡ running
      → (is_failed w.received || (w.do_exit || s.do_exit)) ≡ true
      → wake dev w s
        ≡ record s { do_exit = true; status = exited; made = s.made ++ (cancel_async ∷ []) }
  unfolding wake sighandler
  wake-leaves w s going leave = ground arith

  asked : (w : Wake) → (is_failed w.received || (w.do_exit || true)) ≡ true
  asked w = ground arith

  obey-stop :
      (bs : List ℕ) (s : Worker)
      → dispatch dev (command_of bs) ≡ stop
      → obey dev bs s
        ≡ record s { partial = []; do_exit = true; made = s.made ++ (cancel_async ∷ []) }
  unfolding obey sighandler
  obey-stop bs s close = rw (close, obey)

  wake-closed :
      (s : Worker)
      → s.status ≡ running
      → s.do_exit ≡ false
      → length s.partial < 5
      → wake dev (record { received = closed; do_exit = false }) s ≡ s
  unfolding wake
  wake-closed s going stay short = ground (arith, append-nil s.partial)

  run-exited : (ws : List Wake) (s : Worker) → s.status ≡ exited → run dev ws s ≡ s
  unfolding run
  run-exited [] s h = refl
  run-exited (w ∷ ws) s h = rw (wake-exited w s h) (run-exited ws s h)

  run-leaves :
      (w : Wake) (ws : List Wake) (s : Worker)
      → s.status ≡ running
      → (is_failed w.received || (w.do_exit || s.do_exit)) ≡ true
      → run dev (w ∷ ws) s
        ≡ record s { do_exit = true; status = exited; made = s.made ++ (cancel_async ∷ []) }
  unfolding run
  run-leaves w ws s going leave = rw (wake-leaves w s going leave) (run-exited ws _ refl)

  -- After the command 0x7e the worker makes exactly two calls, both to cancel, however many
  -- commands follow: one when it obeys, one when it ends at the next receive of any kind.
  pub run-close_command :
      (w : Wake) (ws : List Wake) (s : Worker) (bs : List ℕ)
      → s.status ≡ running
      → dispatch dev (command_of bs) ≡ stop
      → run dev (w ∷ ws) (obey dev bs s) ≡ record s {
        partial = [];
        do_exit = true;
        status = exited;
        made = (s.made ++ (cancel_async ∷ [])) ++ (cancel_async ∷ []);
      }
  run-close_command w ws s bs going close =
      ap (run dev (w ∷ ws)) (obey-stop bs s close) ∙ run-leaves w ws _ going (asked w)

  -- When the peer has closed the connection, `recv` returns 0 for ever: the worker does not end and
  -- does nothing else, for any number of rounds.
  pub run-closed :
      (n : ℕ) (s : Worker)
      → s.status ≡ running
      → s.do_exit ≡ false
      → length s.partial < 5
      → run dev (replicate n (record { received = closed; do_exit = false })) s ≡ s
  unfolding run
  run-closed zero s going stay short = refl
  run-closed (suc n) s going stay short =
      ap (run dev (replicate n (record { received = closed; do_exit = false })))
        (wake-closed s going stay short)
      ∙ run-closed n s going stay short

-- A stop is asked for, and the last call was to cancel the reading of samples.
pub record HasStopped (s : Worker) : Type 0 where
  pub stop : s.do_exit ≡ true
  pub before : List Call
  pub cancelled : s.made ≡ before ++ (cancel_async ∷ [])

abbrev IsStopped : Worker → Type 0
IsStopped s = s.status ≡ exited → HasStopped s

if-IsStopped :
    (b : Bool) (x y : Worker)
    → (b ≡ true → IsStopped x)
    → IsStopped y
    → IsStopped (if b then x else y)
if-IsStopped true x y h k = h refl
if-IsStopped false x y h k = k

module _ (dev : Device) where
  obey-IsStopped :
      (bs : List ℕ) (s : Worker) → is_running s.status ≡ true → IsStopped (obey dev bs s)
  unfolding obey sighandler
  obey-IsStopped bs s going = either (dispatch dev (command_of bs))
    where
      either :
          (d : Effect)
          → IsStopped (elim d [
            | calls cs ↦ record s { partial = []; made = s.made ++ cs }
            | stop ↦ sighandler (record s { partial = [] })
            | bad_read ↦ record s { partial = []; status = faulted }
          ])
      either (calls cs) done = absurd (ground (arith, going, done))
      either stop done = absurd (ground (arith, going, done))
      either bad_read done = absurd cc

  wake-IsStopped : (w : Wake) (s : Worker) → IsStopped s → IsStopped (wake dev w s)
  unfolding wake sighandler
  wake-IsStopped w s h =
      if-IsStopped (is_running s.status) _ _
        (λ going.
          if-IsStopped (is_failed w.received || (w.do_exit || s.do_exit)) _ _
            (λ leave done. record { stop = refl; before = s.made; cancelled = refl })
            (if-IsStopped (length (s.partial ++ arrived w.received) == 5) _ _
              (λ full. obey-IsStopped (s.partial ++ arrived w.received) s going)
              (λ done. absurd (ground (arith, going, done)))))
        h

  run-IsStopped : (ws : List Wake) (s : Worker) → IsStopped s → IsStopped (run dev ws s)
  unfolding run
  run-IsStopped [] s h = h
  run-IsStopped (w ∷ ws) s h = run-IsStopped ws (wake dev w s) (wake-IsStopped w s h)

  -- From any worker that runs on, whatever select and recv report and whatever commands arrive: where it
  -- has ended, it has asked for a stop of the whole run, and cancelling the reading of samples was
  -- the last call that it made.
  pub run-HasStopped :
      (ws : List Wake) (s : Worker)
      → s.status ≡ running
      → (run dev ws s).status ≡ exited
      → HasStopped (run dev ws s)
  run-HasStopped ws s going = run-IsStopped ws s (λ done. absurd cc)
