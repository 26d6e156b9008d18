-- ===== src/Session/Main/Restart.antt =====
-- The runs of a process, one after the other, where `do_exit` keeps its value.
use Prim.{tt}
use rtl_ais_android.Base.{
  ℕ, ◌+◌, ◌≤◌, ◌≡◌, ◌⊎◌, inl, inr, refl, arith, ◌&&◌, ◌||◌, not, Bool, true, false, List, [], ◌∷◌,
  ◌++◌, Option, none, some, if◌then◌else◌, ◌∙◌,
}
use rtl_ais_android.Base.Int.{ℤ, pos, ltb_ℤ}
use rtl_ais_android.Tuning.{reset_buffer, nearest_bandwidth}
use rtl_ais_android.Session.Options.{Readers, Options, options, reset, defaults}
use rtl_ais_android.Session.Rates.{Logarithm, Plan, Planned, planned, wrong_args, exits, undefined}
use rtl_ais_android.Session.Main.{
  Event, announce, announce_success, set_isrunning, open_device, close_device, cancel_device, tune,
  init_decoder, free_decoder, start_command_worker, start_demod_thread, read_async, join_worker,
  close_client, close_listener, set_do_exit, Ending, returned, exited, waits, unspecified, Round,
  Calls, quit, out, sampling, read_samples, wait_client, serve, tuning_calls, tune_device,
  start_output, check_device, find_device, planned_run, parsed_run, rtl_ais_main, exit_after,
  left_by, Launch, launch, process,
}

abbrev is_read : Event → Bool
is_read read_async = true
is_read _ = false

abbrev is_stop : Event → Bool
is_stop set_do_exit = true
is_stop _ = false

abbrev any : (Event → Bool) → List Event → Bool
any f [] = false
any f (e ∷ es) = f e || any f es

-- Whether samples are read, and whether `do_exit` is set.
abbrev pub reads : List Event → Bool
reads es = any is_read es

abbrev stops : List Event → Bool
stops es = any is_stop es

any-append : (f : Event → Bool) (xs ys : List Event) → any f (xs ++ ys) ≡ (any f xs || any f ys)
any-append f [] ys = refl
any-append f (x ∷ xs) ys = either (f x) (any-append f xs ys)
  where
    either :
        (b : Bool)
        → any f (xs ++ ys) ≡ (any f xs || any f ys)
        → (b || any f (xs ++ ys)) ≡ ((b || any f xs) || any f ys)
    either true e = refl
    either false e = e

more : (xs ys : List Event) → reads xs ≡ false → reads ys ≡ false → reads (xs ++ ys) ≡ false
more xs ys h k = any-append is_read xs ys ∙ ground (arith, h, k)

earlier : (xs ys : List Event) → stops xs ≡ true → stops (xs ++ ys) ≡ true
earlier xs ys h = any-append is_stop xs ys ∙ ground (arith, h)

later : (xs ys : List Event) → stops ys ≡ true → stops (xs ++ ys) ≡ true
later xs ys h = any-append is_stop xs ys ∙ ground (arith, h)

-- A run that returns has read no samples, or it has found `do_exit` clear and left it set; one that
-- does not return has read none.
abbrev IsSpent : Bool → Ending → Type 0
IsSpent do_exit (returned es) = (reads es ≡ false) ⊎ ((do_exit ≡ false) × (stops es ≡ true))
IsSpent do_exit (exited es) = reads es ≡ false
IsSpent do_exit (waits es) = reads es ≡ false
IsSpent do_exit unspecified = Unit {0}

abbrev ending : Bool → List Event
ending w = close_device ∷ (free_decoder ∷ (if w then [] else close_listener ∷ (close_client ∷ [])))

ending-reads : (w : Bool) → reads (ending w) ≡ false
ending-reads true = refl
ending-reads false = refl

abbrev failed_decoder : List Event
failed_decoder = init_decoder ∷ (cancel_device ∷ (close_device ∷ []))

module _ (do_exit : Bool) where
  if-IsSpent :
      (b : Bool) (x y : Ending)
      → (b ≡ true → IsSpent do_exit x)
      → (b ≡ false → IsSpent do_exit y)
      → IsSpent do_exit (if b then x else y)
  if-IsSpent true x y h k = h refl
  if-IsSpent false x y h k = k refl

  quit-IsSpent : (code : ℤ) (es : List Event) → reads es ≡ false → IsSpent do_exit (quit code es)
  quit-IsSpent code es h = inl (more es _ h refl)

  out-IsSpent : (o : Options) (es : List Event) → reads es ≡ false → IsSpent do_exit (out o es)
  unfolding out
  out-IsSpent o es h =
      let w = o.without_tcp_worker in
      quit-IsSpent (pos 0) (es ++ ending w) (more es (ending w) h (ending-reads w))

  read_samples-IsSpent :
      (o : Options) (es : List Event) → do_exit ≡ false → IsSpent do_exit (read_samples true o es)
  unfolding read_samples out
  read_samples-IsSpent o es clear =
      let sampled = later es (sampling true) refl in
      let w = o.without_tcp_worker in
      let at_out = earlier (es ++ sampling true) (ending w) sampled in
      inr (clear, earlier ((es ++ sampling true) ++ ending w) _ at_out)

  wait_client-IsSpent :
      (rs : List Round) (o : Options) (es : List Event)
      → reads es ≡ false
      → IsSpent do_exit (wait_client do_exit rs o es)
  unfolding wait_client
  wait_client-IsSpent [] o es h = h
  wait_client-IsSpent (r ∷ rs) o es h =
      if-IsSpent do_exit _ _ (λ b. out-IsSpent o es h)
        (λ clear.
          if-IsSpent r.stop _ _
            (λ b. out-IsSpent o (es ++ (set_do_exit ∷ [])) (more es (set_do_exit ∷ []) h refl))
            (λ b.
              if-IsSpent r.client _ _
                (λ b'. read_samples-IsSpent o (es ++ (start_command_worker ∷ [])) clear)
                (λ b'. wait_client-IsSpent rs o es h)))

module _ (c : Calls) (do_exit : Bool) where
  module _ (o : Options) (tcp : o.without_tcp_worker ≡ false) where
    serve-IsSpent : (es : List Event) → reads es ≡ false → IsSpent do_exit (serve c do_exit o es)
    unfolding serve
    serve-IsSpent es h =
        if-IsSpent do_exit (ltb_ℤ (c.device.result reset_buffer) (pos 0)) _ _
          (λ b.
            quit-IsSpent do_exit (pos 4) (es ++ (tune (reset_buffer ∷ []) ∷ []))
              (more es (tune (reset_buffer ∷ []) ∷ []) h refl))
          (λ b.
            if-IsSpent do_exit o.without_tcp_worker _ _ (λ b'. absurd cc)
              (λ b'.
                wait_client-IsSpent do_exit c.rounds o
                  (es ++ (tune (reset_buffer ∷ []) ∷ (announce_success ∷ [])))
                  (more es (tune (reset_buffer ∷ []) ∷ (announce_success ∷ [])) h refl)))

    tune_device-IsSpent :
        (p : Plan) (es : List Event)
        → reads es ≡ false
        → IsSpent do_exit (tune_device c do_exit o p es)
    unfolding tune_device
    tune_device-IsSpent p es h = either (nearest_bandwidth c.device o.bandwidth)
      where
        either :
            (w : Option ℤ)
            → IsSpent do_exit (elim w [
              | none ↦ unspecified
              | some used_bandwidth ↦
                  serve c do_exit o (es ++ (tune (tuning_calls c o p used_bandwidth) ∷ []))
            ])
        either none = tt
        either (some w) =
            serve-IsSpent (es ++ (tune (tuning_calls c o p w) ∷ []))
              (more es (tune (tuning_calls c o p w) ∷ []) h refl)

    start_output-IsSpent :
        (p : Plan) (es : List Event)
        → reads es ≡ false
        → IsSpent do_exit (start_output c do_exit o p es)
    unfolding start_output
    start_output-IsSpent p es h =
        if-IsSpent do_exit o.use_internal_aisdecoder _ _
          (λ b.
            if-IsSpent do_exit c.decoder_inits _ _
              (λ b'.
                tune_device-IsSpent p (es ++ (init_decoder ∷ []))
                  (more es (init_decoder ∷ []) h refl))
              (λ b'.
                quit-IsSpent do_exit (pos 10) (es ++ failed_decoder)
                  (more es failed_decoder h refl)))
          (λ b.
            if-IsSpent do_exit c.file_opens _ _ (λ b'. tune_device-IsSpent p es h)
              (λ b'. quit-IsSpent do_exit (pos 4) es h))

    check_device-IsSpent :
        (p : Plan) (es : List Event)
        → reads es ≡ false
        → IsSpent do_exit (check_device c do_exit o p es)
    unfolding check_device
    check_device-IsSpent p es h =
        if-IsSpent do_exit (not c.dev_set) _ _ (λ b. quit-IsSpent do_exit (pos 4) es h)
          (λ b.
            if-IsSpent do_exit (ltb_ℤ c.open_result (pos 0)) _ _
              (λ b'. quit-IsSpent do_exit c.open_result es h)
              (λ b'.
                start_output-IsSpent p (es ++ (open_device ∷ []))
                  (more es (open_device ∷ []) h refl)))

    planned_run-IsSpent :
        (rd : Readers) (usbfd : Bool) (es : List Event) (q : Planned)
        → reads es ≡ false
        → IsSpent do_exit (planned_run c do_exit rd usbfd o es q)
    unfolding planned_run find_device
    planned_run-IsSpent rd usbfd es (planned p) h =
        if-IsSpent do_exit
          (not usbfd
            && ltb_ℤ (if o.dev_given then o.dev_index else rd.verbose_device_search (b'0' ∷ []))
                (pos 0))
          (quit (pos 3) es) (check_device c do_exit o p es) (λ b. quit-IsSpent do_exit (pos 3) es h)
          (λ b. check_device-IsSpent p es h)
    planned_run-IsSpent rd usbfd es wrong_args h = quit-IsSpent do_exit (pos 1) es h
    planned_run-IsSpent rd usbfd es exits h = more es _ h refl
    planned_run-IsSpent rd usbfd es undefined h = tt

  parsed_run-IsSpent :
      (log : Logarithm) (rd : Readers) (usbfd : Bool) (es : List Event) (r : Option Options)
      → ((o : Options) → r ≡ some o → o.without_tcp_worker ≡ false)
      → reads es ≡ false
      → IsSpent do_exit (parsed_run c do_exit log rd usbfd es r)
  unfolding parsed_run defaults
  parsed_run-IsSpent log rd usbfd es none tcp h = quit-IsSpent do_exit (pos 1) es h
  parsed_run-IsSpent log rd usbfd es (some o) tcp h =
      planned_run-IsSpent (defaults o) (tcp o refl) rd usbfd es _ h

-- The call serves a TCP client, where its options are accepted.
abbrev pub ServesTcp : Launch → Type 0
ServesTcp l =
    (o : Options)
    → options l.readers l.args (reset l.globals) ≡ some o
    → o.without_tcp_worker ≡ false

abbrev pub AllServeTcp : List Launch → Type 0
AllServeTcp [] = Unit {0}
AllServeTcp (l ∷ ls) = ServesTcp l × AllServeTcp ls

launch-IsSpent : (do_exit : Bool) (l : Launch) → ServesTcp l → IsSpent do_exit (launch do_exit l)
unfolding launch rtl_ais_main
launch-IsSpent do_exit l tcp =
    let es = set_isrunning true ∷ [] in
    if-IsSpent do_exit (l.usbfd && not l.calls.fd_valid) _ _
      (λ b. quit-IsSpent do_exit (pos 2) es refl)
      (λ b.
        parsed_run-IsSpent l.calls do_exit l.log l.readers l.usbfd es
          (options l.readers l.args (reset l.globals)) tcp refl)

exit_after_lem : (do_exit : Bool) (es : List Event) → exit_after do_exit es ≡ (do_exit || stops es)
exit_after_lem do_exit [] = ground arith
exit_after_lem do_exit (set_do_exit ∷ es) = exit_after_lem true es ∙ ground arith
exit_after_lem do_exit (announce c ∷ es) = exit_after_lem do_exit es
exit_after_lem do_exit (announce_success ∷ es) = exit_after_lem do_exit es
exit_after_lem do_exit (set_isrunning b ∷ es) = exit_after_lem do_exit es
exit_after_lem do_exit (open_device ∷ es) = exit_after_lem do_exit es
exit_after_lem do_exit (close_device ∷ es) = exit_after_lem do_exit es
exit_after_lem do_exit (cancel_device ∷ es) = exit_after_lem do_exit es
exit_after_lem do_exit (tune cs ∷ es) = exit_after_lem do_exit es
exit_after_lem do_exit (init_decoder ∷ es) = exit_after_lem do_exit es
exit_after_lem do_exit (free_decoder ∷ es) = exit_after_lem do_exit es
exit_after_lem do_exit (start_command_worker ∷ es) = exit_after_lem do_exit es
exit_after_lem do_exit (start_demod_thread ∷ es) = exit_after_lem do_exit es
exit_after_lem do_exit (read_async ∷ es) = exit_after_lem do_exit es
exit_after_lem do_exit (join_worker ∷ es) = exit_after_lem do_exit es
exit_after_lem do_exit (close_client ∷ es) = exit_after_lem do_exit es
exit_after_lem do_exit (close_listener ∷ es) = exit_after_lem do_exit es

abbrev has_read : Ending → Bool
has_read (returned es) = reads es
has_read (exited es) = reads es
has_read (waits es) = reads es
has_read unspecified = false

-- How many of the calls read samples; what C leaves open is not counted.
abbrev pub readings : List Ending → ℕ
readings [] = 0
readings (e ∷ es) = (if has_read e then 1 else 0) + readings es

abbrev budget : Bool → ℕ
budget do_exit = if do_exit then 0 else 1

next-readings :
    (do_exit : Bool) (e : Ending) (ls : List Launch)
    → IsSpent do_exit e
    → ((later : Bool) → readings (process (some later) ls) ≤ budget later)
    → readings (e ∷ process (left_by do_exit e) ls) ≤ budget do_exit
unfolding process left_by
next-readings do_exit (returned es) ls (inl none_read) rest =
    let after = exit_after_lem do_exit es in
    let others = rest (exit_after do_exit es) in ground (arith, none_read, after, others)
next-readings do_exit (returned es) ls (inr (clear, set)) rest =
    let after = exit_after_lem do_exit es in
    let others = rest (exit_after do_exit es) in ground (arith, clear, set, after, others)
next-readings do_exit (exited es) ls h rest = ground (arith, h)
next-readings do_exit (waits es) ls h rest = ground (arith, h)
next-readings do_exit unspecified ls h rest = ground arith

-- Of the calls of `rtl_ais_main` that a process makes, one after the other, all with options that serve
-- a TCP client where they are accepted, at most one reads samples, whatever the calls report and whenever
-- a stop is asked for; and none does where `do_exit` is set before the first. A call that does
-- not return, or whose effect C leaves undefined, is the last of its process, and the latter is not
-- counted.
pub process-readings :
    (ls : List Launch) (do_exit : Bool)
    → AllServeTcp ls
    → readings (process (some do_exit) ls) ≤ (if do_exit then 0 else 1)
unfolding process
process-readings [] do_exit serving = omega arith
process-readings (l ∷ ls) do_exit serving =
    let before = do_exit || l.asked in
    let h =
      next-readings before (launch before l) ls (launch-IsSpent before l serving.0)
        (λ later. process-readings ls later serving.1) in
    ground (arith, h)
