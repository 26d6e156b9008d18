-- ===== src/Command/Worker.antt =====
-- The loop of `command_worker` as a machine that is driven by what `select` and `recv` report.
use rtl_ais_android.Base.{
  ℕ, ◌==◌, ◌||◌, Bool, true, false, List, [], ◌∷◌, ◌++◌, length, get_or, if◌then◌else◌,
}
use rtl_ais_android.Tuning.{Call, cancel_async, Device}
use rtl_ais_android.Command.{Command, calls, stop, bad_read, dispatch}

-- `select` timed out; `recv` returned some bytes; 0, the peer has closed; -1.
pub data Received : Type 0 where
  nothing : Received
  bytes : List ℕ → Received
  closed : Received
  failed : Received

-- One round of the inner loop: what was received, and what the others have made of `do_exit` by then.
pub record Wake : Type 0 where
  pub received : Received
  pub do_exit : Bool

pub data Status : Type 0 where
  running exited faulted : Status

-- `partial` are the bytes of `cmd` that are there, 5 - `left` of them; `made` the calls so far.
pub record Worker : Type 0 where
  pub partial : List ℕ
  pub do_exit : Bool
  pub status : Status
  pub made : List Call

abbrev pub is_running : Status → Bool
is_running running = true
is_running _ = false

abbrev pub is_failed : Received → Bool
is_failed failed = true
is_failed _ = false

abbrev pub arrived : Received → List ℕ
arrived (bytes bs) = bs
arrived _ = []

-- `sighandler(0)`, with a device open.
unfoldable pub sighandler : Worker → Worker
sighandler s = record s { do_exit = true; made = s.made ++ (cancel_async ∷ []) }

abbrev pub command_of : List ℕ → Command
command_of bs = record {
  cmd = get_or bs 0 0;
  p0 = get_or bs 1 0;
  p1 = get_or bs 2 0;
  p2 = get_or bs 3 0;
  p3 = get_or bs 4 0;
}

module _ (dev : Device) where
  -- The whole `switch`, once five bytes are there.
  unfoldable pub obey : List ℕ → Worker → Worker
  unfolding sighandler
  obey bs s = elim (dispatch dev (command_of bs)) [
    | calls cs ↦ record s { partial = []; made = s.made ++ cs }
    | stop ↦ sighandler (record s { partial = [] })
    | bad_read ↦ record s { partial = []; status = faulted }
  ]

  -- A call of `recv` asks for the bytes that are missing, so no more arrive.
  unfoldable pub wake : Wake → Worker → Worker
  unfolding obey sighandler
  wake w s =
      if is_running s.status
      then (if is_failed w.received || (w.do_exit || s.do_exit)
          then record (sighandler s) { status = exited }
          else (let bs = s.partial ++ arrived w.received in
              if length bs == 5 then obey bs s else record s { partial = bs }))
      else s

  unfoldable pub run : List Wake → Worker → Worker
  run [] s = s
  run (w ∷ ws) s = run ws (wake w s)
