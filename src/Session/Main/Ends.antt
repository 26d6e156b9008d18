-- ===== src/Session/Main/Ends.antt =====
-- How every run ends, on every path.
use Prim.{tt}
use rtl_ais_android.Base.{
  ℕ, ◌≡◌, ◌⊎◌, inl, inr, refl, ◌&&◌, not, Bool, true, false, List, [], ◌∷◌, ◌++◌, Option, none,
  some, if◌then◌else◌, ap, ◌∙◌,
}
use rtl_ais_android.Base.Int.{ℤ, pos, ltb_ℤ}
use rtl_ais_android.Tuning.{reset_buffer, nearest_bandwidth}
use rtl_ais_android.Session.Options.{Text, Readers, Options, options, reset, defaults}
use rtl_ais_android.Session.Rates.{Logarithm, Plan, Planned, planned, wrong_args, exits, undefined}
use rtl_ais_android.Session.Main.{
  Event, announce, announce_success, set_isrunning, open_device, close_device, cancel_device, tune,
  init_decoder, free_decoder, start_command_worker, start_demod_thread, read_async, join_worker,
  close_client, close_listener, set_do_exit, Ending, returned, exited, waits, unspecified, Round,
  Calls, quit, out, sampling, read_samples, wait_client, serve, tuning_calls, tune_device,
  start_output, check_device, find_device, planned_run, parsed_run, rtl_ais_main,
}

-- No exit code is announced.
abbrev pub silent : List Event → Bool
silent [] = true
silent (announce c ∷ es) = false
silent (_ ∷ es) = silent es

-- Whether the device is open after the events.
abbrev pub held : Bool → List Event → Bool
held b [] = b
held b (open_device ∷ es) = held true es
held b (close_device ∷ es) = held false es
held b (_ ∷ es) = held b es

-- One exit code, announced at the end, and then the mark that no run is going on; the device is not
-- left open, or the code is EXIT_FAILED_TO_OPEN_DEVICE.
pub record Announced (es : List Event) : Type 0 where
  pub body : List Event
  pub code : ℤ
  pub at : es ≡ body ++ (announce code ∷ (set_isrunning false ∷ []))
  pub once : silent body ≡ true
  pub closed : (held false body ≡ false) ⊎ (code ≡ pos 4)

abbrev pub Ends : Ending → Type 0
Ends (returned es) = Announced es
Ends (exited es) = Announced es
Ends (waits es) = silent es ≡ true
Ends unspecified = Unit {0}

more : (xs ys : List Event) → silent xs ≡ true → silent ys ≡ true → silent (xs ++ ys) ≡ true
more [] ys h k = k
more (announce c ∷ xs) ys h k = absurd cc
more (announce_success ∷ xs) ys h k = more xs ys h k
more (set_isrunning b ∷ xs) ys h k = more xs ys h k
more (open_device ∷ xs) ys h k = more xs ys h k
more (close_device ∷ xs) ys h k = more xs ys h k
more (cancel_device ∷ xs) ys h k = more xs ys h k
more (tune cs ∷ xs) ys h k = more xs ys h k
more (init_decoder ∷ xs) ys h k = more xs ys h k
more (free_decoder ∷ xs) ys h k = more xs ys h k
more (start_command_worker ∷ xs) ys h k = more xs ys h k
more (start_demod_thread ∷ xs) ys h k = more xs ys h k
more (read_async ∷ xs) ys h k = more xs ys h k
more (join_worker ∷ xs) ys h k = more xs ys h k
more (close_client ∷ xs) ys h k = more xs ys h k
more (close_listener ∷ xs) ys h k = more xs ys h k
more (set_do_exit ∷ xs) ys h k = more xs ys h k

held-append : (b : Bool) (xs ys : List Event) → held b (xs ++ ys) ≡ held (held b xs) ys
held-append b [] ys = refl
held-append b (announce c ∷ xs) ys = held-append b xs ys
held-append b (announce_success ∷ xs) ys = held-append b xs ys
held-append b (set_isrunning c ∷ xs) ys = held-append b xs ys
held-append b (open_device ∷ xs) ys = held-append true xs ys
held-append b (close_device ∷ xs) ys = held-append false xs ys
held-append b (cancel_device ∷ xs) ys = held-append b xs ys
held-append b (tune cs ∷ xs) ys = held-append b xs ys
held-append b (init_decoder ∷ xs) ys = held-append b xs ys
held-append b (free_decoder ∷ xs) ys = held-append b xs ys
held-append b (start_command_worker ∷ xs) ys = held-append b xs ys
held-append b (start_demod_thread ∷ xs) ys = held-append b xs ys
held-append b (read_async ∷ xs) ys = held-append b xs ys
held-append b (join_worker ∷ xs) ys = held-append b xs ys
held-append b (close_client ∷ xs) ys = held-append b xs ys
held-append b (close_listener ∷ xs) ys = held-append b xs ys
held-append b (set_do_exit ∷ xs) ys = held-append b xs ys

if-Ends : (b : Bool) (x y : Ending) → Ends x → Ends y → Ends (if b then x else y)
if-Ends true x y h k = h
if-Ends false x y h k = k

quit-Ends :
    (code : ℤ) (es : List Event)
    → silent es ≡ true
    → (held false es ≡ false) ⊎ (code ≡ pos 4)
    → Ends (quit code es)
quit-Ends code es s h = record { body = es; code = code; at = refl; once = s; closed = h }

-- A device is not open after what closes it.
closing :
    (es ys : List Event)
    → held true ys ≡ false
    → held false ys ≡ false
    → held false (es ++ ys) ≡ false
closing es ys h k = either (held false es) refl
  where
    either : (b : Bool) → held false es ≡ b → held false (es ++ ys) ≡ false
    either true e = held-append false es ys ∙ ap (λ b. held b ys) e ∙ h
    either false e = held-append false es ys ∙ ap (λ b. held b ys) e ∙ k

abbrev ending : Bool → List Event
ending w = close_device ∷ (free_decoder ∷ (if w then [] else close_listener ∷ (close_client ∷ [])))

ending-lem : (w b : Bool) → (silent (ending w) ≡ true) × (held b (ending w) ≡ false)
ending-lem true b = (refl, refl)
ending-lem false b = (refl, refl)

out-Ends : (o : Options) (es : List Event) → silent es ≡ true → Ends (out o es)
unfolding out
out-Ends o es s =
    let w = o.without_tcp_worker in
    quit-Ends (pos 0) _ (more es (ending w) s (ending-lem w true).0)
      (inl (closing es (ending w) (ending-lem w true).1 (ending-lem w false).1))

read_samples-Ends :
    (stopped : Bool) (o : Options) (es : List Event)
    → silent es ≡ true
    → Ends (read_samples stopped o es)
unfolding read_samples
read_samples-Ends true o es s = out-Ends o _ (more es (sampling true) s refl)
read_samples-Ends false o es s = out-Ends o _ (more es (sampling false) s refl)

wait_client-Ends :
    (do_exit : Bool) (rs : List Round) (o : Options) (es : List Event)
    → silent es ≡ true
    → Ends (wait_client do_exit rs o es)
unfolding wait_client
wait_client-Ends do_exit [] o es s = s
wait_client-Ends do_exit (r ∷ rs) o es s = if-Ends do_exit _ _ (out-Ends o es s) (
    if-Ends r.stop _ _ (out-Ends o _ (more es _ s refl)) (
      if-Ends r.client _ _ (read_samples-Ends true o _ (more es _ s refl))
        (wait_client-Ends do_exit rs o es s)))

module _ (c : Calls) (do_exit : Bool) where
  serve-Ends : (o : Options) (es : List Event) → silent es ≡ true → Ends (serve c do_exit o es)
  unfolding serve
  serve-Ends o es s =
      if-Ends (ltb_ℤ (c.device.result reset_buffer) (pos 0)) _ _
        (quit-Ends (pos 4) _ (more es _ s refl) (inr refl))
        (if-Ends o.without_tcp_worker _ _ (read_samples-Ends c.stopped o _ (more es _ s refl))
          (wait_client-Ends do_exit c.rounds o _ (more es _ s refl)))

  tune_device-Ends :
      (o : Options) (p : Plan) (es : List Event)
      → silent es ≡ true
      → Ends (tune_device c do_exit o p es)
  unfolding tune_device
  tune_device-Ends o p es s = either (nearest_bandwidth c.device o.bandwidth)
    where
      either :
          (w : Option ℤ)
          → Ends (elim w [
            | none ↦ unspecified
            | some used_bandwidth ↦
                serve c do_exit o (es ++ (tune (tuning_calls c o p used_bandwidth) ∷ []))
          ])
      either none = tt
      either (some w) = serve-Ends o _ (more es _ s refl)

  start_output-Ends :
      (o : Options) (p : Plan) (es : List Event)
      → silent es ≡ true
      → Ends (start_output c do_exit o p es)
  unfolding start_output
  start_output-Ends o p es s =
      if-Ends o.use_internal_aisdecoder _ _
        (if-Ends c.decoder_inits _ _ (tune_device-Ends o p _ (more es _ s refl))
          (quit-Ends (pos 10) _ (more es _ s refl) (inl (closing es _ refl refl))))
        (if-Ends c.file_opens _ _ (tune_device-Ends o p es s) (quit-Ends (pos 4) es s (inr refl)))

  check_device-Ends :
      (o : Options) (p : Plan) (es : List Event)
      → silent es ≡ true
      → held false es ≡ false
      → Ends (check_device c do_exit o p es)
  unfolding check_device
  check_device-Ends o p es s h = if-Ends (not c.dev_set) _ _ (quit-Ends (pos 4) es s (inr refl)) (
      if-Ends (ltb_ℤ c.open_result (pos 0)) _ _ (quit-Ends c.open_result es s (inl h))
        (start_output-Ends o p _ (more es _ s refl)))

  find_device-Ends :
      (rd : Readers) (usbfd : Bool) (o : Options) (p : Plan) (es : List Event)
      → silent es ≡ true
      → held false es ≡ false
      → Ends (find_device c do_exit rd usbfd o p es)
  unfolding find_device
  find_device-Ends rd usbfd o p es s h =
      if-Ends
        (not usbfd
          && ltb_ℤ (if o.dev_given then o.dev_index else rd.verbose_device_search (b'0' ∷ []))
              (pos 0))
        (quit (pos 3) es) (check_device c do_exit o p es) (quit-Ends (pos 3) es s (inl h))
        (check_device-Ends o p es s h)

  planned_run-Ends :
      (rd : Readers) (usbfd : Bool) (o : Options) (es : List Event) (q : Planned)
      → silent es ≡ true
      → held false es ≡ false
      → Ends (planned_run c do_exit rd usbfd o es q)
  unfolding planned_run
  planned_run-Ends rd usbfd o es (planned p) s h = find_device-Ends rd usbfd o p es s h
  planned_run-Ends rd usbfd o es wrong_args s h = quit-Ends (pos 1) es s (inl h)
  planned_run-Ends rd usbfd o es exits s h = record {
    body = es;
    code = pos 1;
    at = refl;
    once = s;
    closed = inl h;
  }
  planned_run-Ends rd usbfd o es undefined s h = tt

  parsed_run-Ends :
      (log : Logarithm) (rd : Readers) (usbfd : Bool) (es : List Event) (r : Option Options)
      → silent es ≡ true
      → held false es ≡ false
      → Ends (parsed_run c do_exit log rd usbfd es r)
  unfolding parsed_run
  parsed_run-Ends log rd usbfd es none s h = quit-Ends (pos 1) es s (inl h)
  parsed_run-Ends log rd usbfd es (some o) s h = planned_run-Ends rd usbfd (defaults o) es _ s h

  -- A run that returns or exits announces exactly one exit code, as the last thing but one, and then
  -- that no run is going on; unless the code is EXIT_FAILED_TO_OPEN_DEVICE (4), it leaves no device
  -- open. While it waits for a client it has announced none.
  pub rtl_ais_main-Ends :
      (log : Logarithm) (rd : Readers) (usbfd : Bool) (args : List (ℕ × Text)) (g : Options)
      → Ends (rtl_ais_main c do_exit log rd usbfd args g)
  unfolding rtl_ais_main
  rtl_ais_main-Ends log rd usbfd args g =
      if-Ends (usbfd && not c.fd_valid) _ _
        (quit-Ends (pos 2) (set_isrunning true ∷ []) refl (inl refl))
        (parsed_run-Ends log rd usbfd (set_isrunning true ∷ []) (options rd args (reset g)) refl
          refl)
