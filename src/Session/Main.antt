-- ===== src/Session/Main.antt =====
-- A run of `rtl_ais_main` from the checks to the end, as the list of what it does to the outside, and
-- the runs of a process one after the other.
pub mod Ends
pub mod Restart
pub mod Opened
use rtl_ais_android.Base.{
  ℕ, ◌==◌, ◌&&◌, ◌||◌, not, Bool, true, false, List, [], ◌∷◌, ◌++◌, Option, none, some,
  if◌then◌else◌,
}
use rtl_ais_android.Base.Int.{ℤ, pos, negsuc, ltb_ℤ, is_zero, to_int32, ◌-ℤ◌}
use rtl_ais_android.Tuning.{
  Call, set_tuner_gain_mode, set_agc_mode, set_center_freq, reset_buffer, Device, Made,
  nearest_gain, nearest_bandwidth, verbose_auto_gain, verbose_gain_set, verbose_ppm_set,
  verbose_set_frequency, verbose_set_sample_rate, verbose_set_bandwidth, verbose_reset_buffer,
}
use rtl_ais_android.Command.{as_uint}
use rtl_ais_android.Session.Options.{Text, Readers, Options, auto_gain, reset, options, defaults}
use rtl_ais_android.Session.Rates.{
  Logarithm, Tuned, Plan, Planned, planned, wrong_args, exits, undefined, plan,
}

-- What a run does to the outside, in order.
pub data Event : Type 0 where
  announce : ℤ → Event
  announce_success : Event
  set_isrunning : Bool → Event
  open_device : Event
  close_device : Event
  cancel_device : Event
  tune : List Call → Event
  init_decoder : Event
  free_decoder : Event
  start_command_worker : Event
  start_demod_thread : Event
  read_async : Event
  join_worker : Event
  close_client : Event
  close_listener : Event
  set_do_exit : Event

-- How it ends: it returns; `exit(1)` ends the process; it still waits for a client; or C leaves open
-- what happens.
pub data Ending : Type 0 where
  returned : List Event → Ending
  exited : List Event → Ending
  waits : List Event → Ending
  unspecified : Ending

-- One round of the wait for a client: whether a stop was asked for by the time of its test of
-- `do_exit`, and whether `select` reports a client.
pub record Round : Type 0 where
  pub stop : Bool
  pub client : Bool

-- What the calls report: whether the descriptor is valid, what `rtlsdr_open` returns and whether `dev`
-- is not NULL after it (a handle of an earlier run counts), whether the output file opens,
-- whether `init_ais_decoder` succeeds, what the EEPROM says of the correction, the rounds of the
-- wait, and whether a stop is asked for while samples are read.
pub record Calls : Type 0 where
  pub fd_valid : Bool
  pub open_result : ℤ
  pub dev_set : Bool
  pub file_opens : Bool
  pub decoder_inits : Bool
  pub ppm_eeprom : ℤ
  pub device : Device
  pub rounds : List Round
  pub stopped : Bool

-- announce_exceptioncode(code); set_isrunning(0); return;
abbrev pub quit : ℤ → List Event → Ending
quit code es = returned (es ++ (announce code ∷ (set_isrunning false ∷ [])))

-- From the label `out` on.
pub out : Options → List Event → Ending
out o es = quit (pos 0) (
    es
    ++ (close_device
        ∷ (free_decoder
            ∷ (if o.without_tcp_worker then [] else close_listener ∷ (close_client ∷ [])))))

-- The threads, the reading, which is taken to end, and what follows it up to the label
-- `out`; `stopped` says whether `do_exit` is set by the time that the worker is joined.
abbrev pub sampling : Bool → List Event
sampling stopped =
    let joined = join_worker ∷ (close_client ∷ (cancel_device ∷ [])) in
    start_demod_thread ∷ (read_async ∷ (if stopped then set_do_exit ∷ joined else joined))

pub read_samples : Bool → Options → List Event → Ending
unfolding out
read_samples stopped o es = out o (es ++ sampling stopped)

-- A worker that was started ends only by `sighandler`, which sets `do_exit`; the join of a worker that
-- goes on for ever is not modelled.
pub wait_client : Bool → List Round → Options → List Event → Ending
unfolding out read_samples
wait_client do_exit [] o es = waits es
wait_client do_exit (r ∷ rs) o es =
    let rest = wait_client do_exit rs o es in
    if do_exit
    then out o es
    else if r.stop
    then out o (es ++ (set_do_exit ∷ []))
    else if r.client
    then read_samples true o (es ++ (start_command_worker ∷ []))
    else rest

module _ (c : Calls) where
  -- The calls for the gain, the automatic gain control and the correction that they use.
  pub gain_calls : Options → List Call
  unfolding nearest_gain verbose_auto_gain verbose_gain_set
  gain_calls o =
      (if is_zero (o.gain -ℤ auto_gain)
        then (verbose_auto_gain c.device).calls
        else (let g = nearest_gain c.device o.gain in
            g.calls ++ (verbose_gain_set c.device g.value).calls))
      ++ (if o.rtl_agc then set_agc_mode (pos 1) ∷ [] else [])

  -- All calls that tune the device; mode 3 is GAIN_MODE_SENSITIVITY. `dongle_freq` goes to a `uint32_t`.
  pub tuning_calls : Options → Plan → ℤ → List Call
  unfolding gain_calls verbose_set_bandwidth verbose_ppm_set verbose_set_frequency
      verbose_set_sample_rate
  tuning_calls o p used_bandwidth =
      (set_tuner_gain_mode (pos 3) ∷ gain_calls o)
      ++ (verbose_set_bandwidth c.device (as_uint used_bandwidth)).calls
      ++ (verbose_ppm_set c.device (if o.custom_ppm then o.ppm_error else c.ppm_eeprom)).calls
      ++ (verbose_set_frequency c.device (as_uint p.dongle_freq)).calls
      ++ (verbose_set_sample_rate c.device p.dongle_rate).calls

  abbrev pub tuned : Options → Tuned
  tuned o = record {
    left_freq = o.left_freq;
    right_freq = o.right_freq;
    sample_rate = o.sample_rate;
    output_rate = o.output_rate;
    edge = o.edge;
  }

-- The run on a process whose `do_exit` is the one given.
module _ (c : Calls) (do_exit : Bool) where
  -- From `verbose_reset_buffer` on.
  pub serve : Options → List Event → Ending
  unfolding read_samples wait_client
  serve o es =
      if ltb_ℤ (c.device.result reset_buffer) (pos 0)
      then quit (pos 4) (es ++ (tune (reset_buffer ∷ []) ∷ []))
      else (let es' = es ++ (tune (reset_buffer ∷ []) ∷ (announce_success ∷ [])) in
          if o.without_tcp_worker
          then read_samples c.stopped o es'
          else wait_client do_exit c.rounds o es')

  pub tune_device : Options → Plan → List Event → Ending
  unfolding serve tuning_calls nearest_bandwidth
  tune_device o p es = elim (nearest_bandwidth c.device o.bandwidth) [
    | none ↦ unspecified
    | some used_bandwidth ↦ serve o (es ++ (tune (tuning_calls c o p used_bandwidth) ∷ []))
  ]

  -- The output: a file or the standard output, or the built-in decoder.
  pub start_output : Options → Plan → List Event → Ending
  unfolding tune_device
  start_output o p es =
      if o.use_internal_aisdecoder
      then (if c.decoder_inits
          then tune_device o p (es ++ (init_decoder ∷ []))
          else quit (pos 10) (es ++ (init_decoder ∷ (cancel_device ∷ (close_device ∷ [])))))
      else if c.file_opens
      then tune_device o p es
      else quit (pos 4) es

  -- After the call of `rtlsdr_open` or `rtlsdr_open2`.
  pub check_device : Options → Plan → List Event → Ending
  unfolding start_output
  check_device o p es =
      if not c.dev_set
      then quit (pos 4) es
      else if ltb_ℤ c.open_result (pos 0)
      then quit c.open_result es
      else start_output o p (es ++ (open_device ∷ []))

  -- `usbfd` is given or -1.
  pub find_device : Readers → Bool → Options → Plan → List Event → Ending
  unfolding check_device
  find_device rd usbfd o p es =
      let dev_index = if o.dev_given then o.dev_index else rd.verbose_device_search (b'0' ∷ []) in
      if not usbfd && ltb_ℤ dev_index (pos 0) then quit (pos 3) es else check_device o p es

  -- What follows the plan of rates and lengths.
  pub planned_run : Readers → Bool → Options → List Event → Planned → Ending
  unfolding find_device
  planned_run rd usbfd o es (planned p) = find_device rd usbfd o p es
  planned_run rd usbfd o es wrong_args = quit (pos 1) es
  planned_run rd usbfd o es exits = exited (es ++ (announce (pos 1) ∷ (set_isrunning false ∷ [])))
  planned_run rd usbfd o es undefined = unspecified

  -- What follows the loop over the options.
  pub parsed_run : Logarithm → Readers → Bool → List Event → Option Options → Ending
  unfolding planned_run defaults
  parsed_run log rd usbfd es none = quit (pos 1) es
  parsed_run log rd usbfd es (some o) = planned_run rd usbfd (defaults o) es (plan log (tuned c o))

  -- The whole run; `args` is what `getopt` returns, and the globals are those of `g`.
  unfoldable pub rtl_ais_main : Logarithm → Readers → Bool → List (ℕ × Text) → Options → Ending
  unfolding reset parsed_run
  rtl_ais_main log rd usbfd args g =
      let es = set_isrunning true ∷ [] in
      if usbfd && not c.fd_valid
      then quit (pos 2) es
      else parsed_run log rd usbfd es (options rd args (reset g))

-- `do_exit` after the events of a run.
abbrev pub exit_after : Bool → List Event → Bool
exit_after do_exit [] = do_exit
exit_after do_exit (set_do_exit ∷ es) = exit_after true es
exit_after do_exit (_ ∷ es) = exit_after do_exit es

-- After a run that does not return, no other begins.
pub left_by : Bool → Ending → Option Bool
left_by do_exit (returned es) = some (exit_after do_exit es)
left_by do_exit _ = none

-- A call of `rtl_ais_main`, with the globals of Options as it finds them; `asked` says whether a stop
-- was asked for since the call before, or in that call outside of its wait and its reading.
pub record Launch : Type 0 where
  pub asked : Bool
  pub calls : Calls
  pub log : Logarithm
  pub readers : Readers
  pub usbfd : Bool
  pub args : List (ℕ × Text)
  pub globals : Options

pub launch : Bool → Launch → Ending
unfolding rtl_ais_main
launch do_exit l = rtl_ais_main l.calls do_exit l.log l.readers l.usbfd l.args l.globals

-- The calls of a process, one after the other; `do_exit` keeps its value from one to the next, and is
-- none where no other call begins.
unfoldable pub process : Option Bool → List Launch → List Ending
unfolding launch left_by
process none ls = []
process (some do_exit) [] = []
process (some do_exit) (l ∷ ls) =
    let before = do_exit || l.asked in
    let end = launch before l in end ∷ process (left_by before end) ls
