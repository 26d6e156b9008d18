-- ===== src/Session/Rates/Tests/Runs.antt =====
-- The theorems on the signal path at the plan for the two channels of AIS.
use rtl_ais_android.Base.{ℕ, ◌-◌, ◌≤◌, ◌≡◌, refl, arith, false}
use rtl_ais_android.Base.{[], ◌∷◌}
use Prim.{tt}
use rtl_ais_android.Base.{Array, ltb, if◌then◌else◌, Agree}
use rtl_ais_android.Base.Int.{pos}
use rtl_ais_android.Dsp.Pipeline.Reads.State.{SameState}
use rtl_ais_android.Session.Rates.Reads.{plan-reads}
use rtl_ais_android.Base.{◌/◌}
use rtl_ais_android.Session.Rates.Receiver.{AreReceived, plan-receives}
use rtl_ais_android.Session.Rates.Threads.{Reach-receives}
use rtl_ais_android.Dsp.Pipeline.Threads.{System, Reach, start, reading}
use rtl_ais_android.Dsp.Pipeline.Threads.Turns.{in_turn, all_in_turn}
use rtl_ais_android.Dsp.Pipeline.Threads.Sequential.{settled}
use rtl_ais_android.Base.{false}
use rtl_ais_android.Base.Int.{Within}
use rtl_ais_android.Dsp.Tests.{samples, stage}
use rtl_ais_android.Dsp.Pipeline.{Pipeline}
use rtl_ais_android.Dsp.Pipeline.Levels.{AreBytes, feed}
use rtl_ais_android.Dsp.Pipeline.Tests.{hold, pipe}
use rtl_ais_android.Base.Int.{ℤ}
use rtl_ais_android.Dsp.Upsample.{upsampled}
use rtl_ais_android.Dsp.Pipeline.Stores.{Kept}
use rtl_ais_android.Dsp.Pipeline.Init.{Fresh, init_buffers}
use rtl_ais_android.Session.Rates.Levels.{no_history}
use rtl_ais_android.Session.Rates.Setup.{assign, plan-stores, plan-levels}
use rtl_ais_android.Session.Rates.Tests.{
  floor, ais, ais_plan, ais_planned, ais_exact, saw, saw_bytes, first_of_two,
}

abbrev fresh : Fresh
fresh = record {
  both = samples;
  left = samples;
  right = samples;
  left_buf = samples;
  left_result = samples;
  right_buf = samples;
  right_result = samples;
  buf_left = samples;
  buf_right = samples;
  result = samples;
}

-- The globals of a process that has just started, but for what the plan assigns.
abbrev globals : Pipeline
globals = record pipe {
  both = record stage { droop_i_hist = no_history; droop_q_hist = no_history };
}

abbrev begun : Pipeline
begun = init_buffers fresh (assign ais_plan globals)

plan-stores_example :
    Kept begun (feed (upsampled first_of_two) (saw ∷ (saw ∷ [])) begun)
    × (begun.both.downsample_passes ≤ 10)
    × (begun.left.downsample_passes ≤ 10)
    × (begun.right.downsample_passes ≤ 10)
plan-stores_example =
    plan-stores floor ais ais_plan ais_planned fresh globals (omega arith) (omega arith)
      first_of_two (saw ∷ (saw ∷ []))

plan-levels_example : Within 20480 ((feed hold (saw ∷ (saw ∷ [])) begun).both.buf 1000)
unfolding AreBytes
plan-levels_example =
    plan-levels floor ais ais_plan ais_planned fresh globals (omega arith) refl refl hold saw
      (saw ∷ []) (saw_bytes, (saw_bytes, tt)) 1000 (omega arith)

-- Other buffers, and blocks that go on otherwise.
abbrev zeros : Array ℤ
zeros x = pos 0

abbrev cleared : Fresh
cleared = record {
  both = zeros;
  left = zeros;
  right = zeros;
  left_buf = zeros;
  left_result = zeros;
  right_buf = zeros;
  right_result = zeros;
  buf_left = zeros;
  buf_right = zeros;
  result = zeros;
}

abbrev cut : Array ℕ
cut x = if ltb x 262144 then saw x else 0

cut-Agree : Agree 262144 saw cut
cut-Agree x lt = ground (arith, lt)

plan-reads_example : SameState (feed (upsampled first_of_two) (saw ∷ (saw ∷ [])) begun) (
    feed
      (upsampled first_of_two)
      (cut ∷ (cut ∷ []))
      (init_buffers cleared (assign ais_plan globals)))
plan-reads_example =
    plan-reads floor ais ais_plan ais_planned (omega arith) (omega arith) ais_exact first_of_two
      fresh cleared globals (saw ∷ (saw ∷ [])) (cut ∷ (cut ∷ [])) (cut-Agree, (cut-Agree, tt))

plan-receives_example :
    AreReceived
      (upsampled first_of_two)
      (ais_plan.both.len_out / 2)
      (ais_plan.left_result_len - 1)
      (saw ∷ (cut ∷ []))
      begun
      (feed (upsampled first_of_two) (saw ∷ (cut ∷ [])) begun)
plan-receives_example =
    plan-receives floor ais ais_plan ais_planned (omega arith) (omega arith) ais_exact first_of_two
      fresh globals (saw ∷ (cut ∷ []))

-- A run of the threads that takes two blocks in turn.
abbrev two_turns :
    (t : System) × Reach (upsampled first_of_two) false (start begun) t
    × (t.usb ≡ reading)
    × (t.log ≡ in_turn 262144 (saw ∷ (cut ∷ [])))
two_turns = all_in_turn (upsampled first_of_two) begun 262144 (saw ∷ (cut ∷ []))

Reach-receives_example :
    AreReceived
      (upsampled first_of_two)
      (ais_plan.both.len_out / 2)
      (ais_plan.left_result_len - 1)
      (saw ∷ (cut ∷ []))
      begun
      (settled (upsampled first_of_two) two_turns.0.demod two_turns.0.pipe)
Reach-receives_example =
    Reach-receives floor ais ais_plan ais_planned (omega arith) (omega arith) ais_exact first_of_two
      fresh globals (saw ∷ (cut ∷ [])) false two_turns.0 two_turns.1 two_turns.2 two_turns.3
