-- ===== src/Command/Tests.antt =====
-- The theorems on the remote control at a device with two gains.
use Prim.{tt}
use rtl_ais_android.Base.{ℕ, ◌≡◌, refl, arith, false, List, [], ◌∷◌, ◌++◌, map}
use rtl_ais_android.Base.Int.{pos}
use rtl_ais_android.Tuning.{Device}
use rtl_ais_android.Command.{dispatch}
use rtl_ais_android.Command.Worker.{Wake, running, exited, Worker, wake, run}
use rtl_ais_android.Command.Framing.{read, Fits, feed, all_bytes, run-feed}
use rtl_ais_android.Command.Stop.{HasStopped, run-HasStopped}

abbrev tuner : Device
tuner = record {
  gains = pos 15 ∷ (pos 40 ∷ []);
  bandwidths = pos 300000 ∷ [];
  result = λ call. pos 0;
}

abbrev idle : Worker
idle = record { partial = []; do_exit = false; status = running; made = [] }

-- The command "set the gain of index 1", in reads of two and three bytes.
abbrev reads : List (List ℕ)
reads = (13 ∷ (0 ∷ [])) ∷ ((0 ∷ (0 ∷ (1 ∷ []))) ∷ [])

reads-Fits : Fits tuner reads idle
unfolding Fits wake
reads-Fits = (λ e. cc, omega arith, (λ e. cc, omega arith, tt))

run-feed_example : run tuner (map read reads) idle ≡ feed tuner (all_bytes reads) idle
run-feed_example = run-feed tuner reads idle reads-Fits

-- A command, the command to close, and one receive more.
abbrev closing : List Wake
closing = map read (reads ++ (((0x7e ∷ (0 ∷ [])) ∷ ((0 ∷ (0 ∷ (0 ∷ []))) ∷ (([]) ∷ [])))))

closing_ends : (run tuner closing idle).status ≡ exited
unfolding run wake dispatch
closing_ends = refl

run-HasStopped_example : HasStopped (run tuner closing idle)
run-HasStopped_example = run-HasStopped tuner closing idle refl closing_ends
