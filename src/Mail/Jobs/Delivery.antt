-- ===== src/Mail/Jobs/Delivery.antt =====
-- Any number of runs of one e-mail job, with the faults that they may meet.
use express_core.Base.{
  ℕ, ◌+◌, ◌≤◌, String, true, false, none, some, List, [], ◌∷◌, ◌++◌, ◌≡◌, refl, sym, inl, inr,
  length, Bool-cases, Option-cases, arith, subst,
}
use express_core.Rbac.{includes}
use express_core.Mail.{MailEnv, MailMessage, Letter, compose, send_mail}
use express_core.Mail.Jobs.{
  Job, Links, World, ready, letter_of, dispatch, process_email_job, process_marked, marker_of,
  address,
}
-- A run meets a transport, the database of its time, and Redis, which may have lost the markers.
use express_core.Mail.Jobs.Runs.{Run, all_faults, found_by, unmarked, one_if, Step, run-Step}

module _ (layout : String → String) (e : MailEnv) (links : Links) (job : Job) where
  unfoldable pub run_all : List Run → World → World
  run_all [] w = w
  run_all (r ∷ runs) w =
      run_all runs (process_email_job layout e links r.transport r.faults job (found_by r w)).1

  module _ (marker : String) (has_marker : marker_of job.id ≡ some marker) where
    -- What a run finds.
    found-bounded :
        (r : Run) (w : World)
        → unmarked marker (found_by r w) ≤ unmarked marker w + one_if r.expired
    unfolding includes
    found-bounded r w = elim (Bool-cases r.expired) [
      | inl h ↦ rw h (ground arith)
      | inr h ↦ rw h (omega arith)
    ]

    pub run_all-bounded :
        (runs : List Run) (w : World)
        → length (run_all runs w).sent + unmarked marker (run_all runs w)
          ≤ length w.sent + unmarked marker w + all_faults runs
    unfolding run_all
    run_all-bounded [] w = omega arith
    run_all-bounded (r ∷ runs) w =
        let start = found-bounded r w in
        let one =
          (run-Step layout e links job marker has_marker r.transport r.faults
            (found_by r w)).bounded in
        let rest =
          run_all-bounded runs
            (process_email_job layout e links r.transport r.faults job (found_by r w)).1 in
        omega arith

    -- When a job has an id, any number of runs of it, whatever the transports and Redis answer and
    -- the database holds at each, have at most one message accepted, and one more for each of
    -- these: the marker was lost before a run, the writing of the marker failed, or a run met a
    -- transport that accepts a message although its send fails.
    pub run_all-sent_once :
        (runs : List Run) (w : World)
        → length (run_all runs w).sent ≤ length w.sent + (1 + all_faults runs)
    run_all-sent_once runs w =
        let bounded = run_all-bounded runs w in
        let at_most : unmarked marker w ≤ 1 = ground arith in omega arith

    run_all-kept : (runs : List Run) (w : World) → length w.sent ≤ length (run_all runs w).sent
    unfolding run_all
    run_all-kept [] w = omega arith
    run_all-kept (r ∷ runs) w =
        let one =
          (run-Step layout e links job marker has_marker r.transport r.faults
            (found_by r w)).kept in
        let rest =
          run_all-kept runs
            (process_email_job layout e links r.transport r.faults job (found_by r w)).1 in
        omega arith

    -- A marker that is there says that an e-mail went out since.
    record Honest (n : ℕ) (w : World) : Type 0 where
      least : n ≤ length w.sent
      told : includes w.markers marker ≡ true → n + 1 ≤ length w.sent

    found-Honest : (r : Run) (n : ℕ) (w : World) → Honest n w → Honest n (found_by r w)
    unfolding includes
    found-Honest r n w h = elim (Bool-cases r.expired) [
      | inl k ↦ rw k (record { least = h.least; told = λ l. absurd (cc l) })
      | inr k ↦ rw k (record { least = h.least; told = h.told })
    ]

    Step-Honest :
        (k n : ℕ) (w v : World) → Step layout e links job marker k w v → Honest n w → Honest n v
    Step-Honest k n w v s h =
        let least = h.least in
        let kept = s.kept in
        record {
          least = omega arith;
          told = λ l. elim (Bool-cases (includes w.markers marker)) [
            | inl m ↦ let before = h.told m in omega arith
            | inr m ↦ let more = s.marks m l in omega arith
          ];
        }

    run_all-Honest : (runs : List Run) (n : ℕ) (w : World) → Honest n w → Honest n (run_all runs w)
    unfolding run_all
    run_all-Honest [] n w h = h
    run_all-Honest (r ∷ runs) n w h = run_all-Honest runs n _ (
        Step-Honest _ n _ _
          (run-Step layout e links job marker has_marker r.transport r.faults (found_by r w))
          (found-Honest r n w h))

  run_all-append : (xs ys : List Run) (w : World) → run_all (xs ++ ys) w ≡ run_all ys (run_all xs w)
  unfolding run_all
  run_all-append [] ys w = refl
  run_all-append (r ∷ xs) ys w = run_all-append xs ys _

  -- A run that reads the marker and meets a transport that accepts leaves an e-mail sent.
  run-sends :
      (marker : String) (letter : Letter) (r : Run) (n : ℕ) (w : World)
      (has_marker : marker_of job.id ≡ some marker)
      → letter_of e links job ≡ ready letter
      → r.faults.get_error ≡ none
      → ((m : MailMessage) → send_mail e.config r.transport m ≡ none)
      → Honest marker has_marker n w
      → n + 1 ≤ length (process_email_job layout e links r.transport r.faults job w).1.sent
  unfolding process_email_job process_marked dispatch
  run-sends marker letter r n w has_marker well_formed readable accepts h =
      subst
        (λ o. n + 1 ≤ length (process_marked layout e links r.transport r.faults job w o).1.sent)
        (sym has_marker)
        (elim (Bool-cases (includes w.markers marker)) [
          | inl k ↦ rw (readable, k, process_marked) (h.told k)
          | inr k ↦
              let least = h.least in
              rw (readable, k, process_marked)
                (rw (well_formed, dispatch)
                  (rw (accepts (compose layout e (address job) letter w.db))
                    (elim (Option-cases r.faults.set_error) [
                      | inl s ↦ rw s (omega arith)
                      | inr (reason, s) ↦ rw s (omega arith)
                    ])))
        ])

  -- When a job has an id that is not marked as sent and names a letter, and one of its runs can
  -- read the marker and meets a transport that accepts every message, then at least one message
  -- has been accepted after all the runs, whatever faults the runs before and after it meet.
  pub run_all-sent :
      (marker : String) (letter : Letter) (before after : List Run) (r : Run) (w : World)
      → marker_of job.id ≡ some marker
      → includes w.markers marker ≡ false
      → letter_of e links job ≡ ready letter
      → r.faults.get_error ≡ none
      → ((m : MailMessage) → send_mail e.config r.transport m ≡ none)
      → length w.sent + 1 ≤ length (run_all (before ++ r ∷ after) w).sent
  unfolding run_all
  run_all-sent marker letter before after r w has_marker fresh well_formed readable accepts =
      let start : Honest marker has_marker (length w.sent) w = record {
        least = omega arith;
        told = λ l. absurd (cc (fresh, l));
      } in
      let found =
        found-Honest marker has_marker r (length w.sent) (run_all before w)
          (run_all-Honest marker has_marker before (length w.sent) w start) in
      let ready_world = found_by r (run_all before w) in
      let sends =
        run-sends marker letter r (length w.sent) ready_world has_marker well_formed readable
          accepts found in
      let kept =
        run_all-kept marker has_marker after
          (process_email_job layout e links r.transport r.faults job ready_world).1 in
      subst (λ v. length w.sent + 1 ≤ length v.sent) (sym (run_all-append before (r ∷ after) w))
        (omega (arith, kept))
