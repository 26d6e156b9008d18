-- ===== src/Command/Framing.antt =====
-- How the bytes of the stream are cut into reads.
use mathlib.Core.List.{append_assoc}
use rtl_ais_android.Base.{
  ℕ, ◌+◌, ◌≤◌, ◌<◌, ◌≡◌, ◌≢◌, refl, arith, ◌==◌, true, false, List, [], ◌∷◌, ◌++◌, length,
  length-append, map, if◌then◌else◌, ap, sym, Bool-cases, inl, inr, ◌∙◌,
}
use rtl_ais_android.Tuning.{Device}
use rtl_ais_android.Command.Worker.{
  bytes, Wake, running, exited, is_running, Worker, sighandler, obey, wake, run,
}

-- A read of some bytes, with nobody asking to stop.
abbrev pub read : List ℕ → Wake
read bs = record { received = bytes bs; do_exit = false }

abbrev pub all_bytes : List (List ℕ) → List ℕ
all_bytes [] = []
all_bytes (bs ∷ rest) = bs ++ all_bytes rest

module _ (dev : Device) where
  -- The bytes one at a time.
  pub feed : List ℕ → Worker → Worker
  feed [] s = s
  feed (b ∷ bs) s = feed bs (wake dev (read (b ∷ [])) s)

  -- A byte that does not complete a command.
  wake-short :
      (b : ℕ) (s : Worker)
      → length s.partial + 1 < 5
      → wake dev (read (b ∷ [])) s ≡ (
          if is_running s.status
          then (if s.do_exit
              then record (sighandler s) { status = exited }
              else record s { partial = s.partial ++ (b ∷ []) })
          else s)
  unfolding wake
  wake-short b s short = ground (arith, length-append s.partial (b ∷ []))

  wake-stopped : (w : Wake) (s : Worker) → is_running s.status ≡ false → wake dev w s ≡ s
  unfolding wake
  wake-stopped w s h = rw (h, wake)

  feed-stopped : (bs : List ℕ) (s : Worker) → is_running s.status ≡ false → feed bs s ≡ s
  unfolding feed
  feed-stopped [] s h = refl
  feed-stopped (b ∷ bs) s h = rw (wake-stopped (read (b ∷ [])) s h) (feed-stopped bs s h)

  -- `obey` does not read the partial command.
  obey-partial :
      (bs p : List ℕ) (s : Worker) → obey dev bs (record s { partial = p }) ≡ obey dev bs s
  unfolding obey
  obey-partial bs p s = ground arith

  wake-exit :
      (bs : List ℕ) (s : Worker)
      → is_running s.status ≡ true
      → s.do_exit ≡ true
      → wake dev (read bs) s ≡ record (sighandler s) { status = exited }
  unfolding wake
  wake-exit bs s r e = rw (r, e, wake)

  wake-go :
      (bs : List ℕ) (s : Worker)
      → is_running s.status ≡ true
      → s.do_exit ≡ false
      → wake dev (read bs) s ≡ (
          if length (s.partial ++ bs) == 5
          then obey dev (s.partial ++ bs) s
          else record s { partial = s.partial ++ bs })
  unfolding wake
  wake-go bs s r e = rw (r, e, wake)

  -- Reading a byte and then the others is reading them together.
  wake-cons :
      (b c : ℕ) (bs : List ℕ) (s : Worker)
      → length s.partial + length (b ∷ (c ∷ bs)) ≤ 5
      → wake dev (read (b ∷ (c ∷ bs))) s ≡ wake dev (read (c ∷ bs)) (wake dev (read (b ∷ [])) s)
  wake-cons b c bs s fits = elim (Bool-cases (is_running s.status)) [
    | inr no_run ↦ rw (
      wake-stopped (read (b ∷ (c ∷ bs))) s no_run,
      wake-stopped (read (b ∷ [])) s no_run,
      wake-stopped (read (c ∷ bs)) s no_run,
    )
    | inl go ↦ elim (Bool-cases s.do_exit) [
      | inl leave ↦
          wake-exit (b ∷ (c ∷ bs)) s go leave
          ∙ sym (wake-stopped (read (c ∷ bs)) (record (sighandler s) { status = exited }) refl)
          ∙ ap (wake dev (read (c ∷ bs))) (sym (wake-exit (b ∷ []) s go leave))
      | inr stay ↦
          wake-go (b ∷ (c ∷ bs)) s go stay
          ∙ together stay
          ∙ sym (wake-go (c ∷ bs) (record s { partial = s.partial ++ (b ∷ []) }) go stay)
          ∙ ap (wake dev (read (c ∷ bs))) (sym (wake-short' go stay))
    ]
  ]
    where
      wake-short' :
          is_running s.status ≡ true
          → s.do_exit ≡ false
          → wake dev (read (b ∷ [])) s ≡ record s { partial = s.partial ++ (b ∷ []) }
      wake-short' go stay = wake-short b s (omega arith) ∙ rw (go, stay)

      regroup : (s.partial ++ (b ∷ [])) ++ (c ∷ bs) ≡ s.partial ++ (b ∷ (c ∷ bs))
      regroup = append_assoc s.partial (b ∷ []) (c ∷ bs)

      together :
          s.do_exit ≡ false
          → (if length (s.partial ++ (b ∷ (c ∷ bs))) == 5
              then obey dev (s.partial ++ (b ∷ (c ∷ bs))) s
              else record s { partial = s.partial ++ (b ∷ (c ∷ bs)) })
            ≡ (if length ((s.partial ++ (b ∷ [])) ++ (c ∷ bs)) == 5
                then obey dev
                    ((s.partial ++ (b ∷ [])) ++ (c ∷ bs))
                    (record s { partial = s.partial ++ (b ∷ []) })
                else record s { partial = (s.partial ++ (b ∷ [])) ++ (c ∷ bs) })
      together stay =
          rw (regroup, obey-partial (s.partial ++ (b ∷ (c ∷ bs))) (s.partial ++ (b ∷ [])) s)

  partial-wake :
      (b : ℕ) (s : Worker)
      → length s.partial + 1 < 5
      → length (wake dev (read (b ∷ [])) s).partial ≤ length s.partial + 1
  unfolding sighandler
  partial-wake b s short = ground (arith, wake-short b s short, length-append s.partial (b ∷ []))

  wake-feed :
      (b : ℕ) (bs : List ℕ) (s : Worker)
      → length s.partial + length (b ∷ bs) ≤ 5
      → wake dev (read (b ∷ bs)) s ≡ feed (b ∷ bs) s
  unfolding feed
  wake-feed b [] s fits = refl
  wake-feed b (c ∷ bs) s fits =
      wake-cons b c bs s fits
      ∙ wake-feed c bs (wake dev (read (b ∷ [])) s) (omega (arith, partial-wake b s (omega arith)))

  -- The reads of a run ask for no more than the command that is under way still wants.
  unfoldable pub Fits : List (List ℕ) → Worker → Type 0
  Fits [] s = Unit {0}
  Fits (bs ∷ rest) s =
      (bs ≢ []) × (length s.partial + length bs ≤ 5) × Fits rest (wake dev (read bs) s)

  feed-append : (xs ys : List ℕ) (s : Worker) → feed (xs ++ ys) s ≡ feed ys (feed xs s)
  unfolding feed
  feed-append [] ys s = refl
  feed-append (x ∷ xs) ys s = feed-append xs ys (wake dev (read (x ∷ [])) s)

  -- However the bytes of the stream are cut into reads, as long as each asks for no more than the
  -- current command still wants, the worker ends in the state that the bytes one at a time
  -- give: the same calls in the same order, and the same part of a command left over.
  pub run-feed :
      (chunks : List (List ℕ)) (s : Worker)
      → Fits chunks s
      → run dev (map read chunks) s ≡ feed (all_bytes chunks) s
  unfolding run Fits
  run-feed [] s h = unfold feed in refl
  run-feed ([] ∷ rest) s h = absurd (h.0 refl)
  run-feed ((b ∷ bs) ∷ rest) s h =
      run-feed rest (wake dev (read (b ∷ bs)) s) h.2
      ∙ ap (feed (all_bytes rest)) (wake-feed b bs s h.1)
      ∙ sym (feed-append (b ∷ bs) (all_bytes rest) s)

  -- Five bytes from the start of a command, to a worker that runs and is not asked to stop, are
  -- obeyed as that command, in however many reads they come.
  pub run-command :
      (chunks : List (List ℕ)) (s : Worker) (b c d e f : ℕ)
      → Fits chunks s
      → all_bytes chunks ≡ b ∷ c ∷ d ∷ e ∷ f ∷ []
      → s.partial ≡ []
      → s.status ≡ running
      → s.do_exit ≡ false
      → run dev (map read chunks) s ≡ obey dev (b ∷ c ∷ d ∷ e ∷ f ∷ []) s
  run-command chunks s b c d e f fits all start going stay =
      run-feed chunks s fits
      ∙ ap (λ bs. feed bs s) all
      ∙ sym (wake-feed b (c ∷ d ∷ e ∷ f ∷ []) s (rw start (omega arith)))
      ∙ wake-go (b ∷ c ∷ d ∷ e ∷ f ∷ []) s (rw going refl) stay
      ∙ rw start
