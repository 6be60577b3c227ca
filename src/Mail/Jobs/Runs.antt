-- ===== src/Mail/Jobs/Runs.antt =====
-- One run of an e-mail job (email.processor.ts), with the faults that it may meet.
use express_core.Base.{
  ℕ, ◌+◌, ◌≤◌, String, Bool, true, false, Option, none, some, List, [], ◌∷◌, ◌≡◌, refl, sym, inl,
  inr, length, Bool-cases, Option-cases, arith, eq_refl, subst, if◌then◌else◌,
}
use express_core.Store.{Db}
use express_core.Rbac.{includes}
use express_core.Mail.{
  MailEnv, MailMessage, MailError, Transport, compose, send_mail, reaches, validate_mail_config,
}
use express_core.Mail.Jobs.{
  Job, Links, World, MarkerFaults, Prepared, ready, refused, letter_of, dispatch, process_email_job,
  process_marked, marker_of, mark, send_letter, address,
}

-- A run meets a transport, the database of its time, and Redis, which may have lost the markers.
pub record Run : Type 0 where
  pub transport : Transport
  pub db : Db
  pub faults : MarkerFaults
  pub expired : Bool

abbrev pub one_if : Bool → ℕ
one_if true = 1
one_if false = 0

abbrev pub one_if_some : Option String → ℕ
one_if_some none = 0
one_if_some (some reason) = 1

-- What can make a run repeat an e-mail: a lost marker, a marker that is not written, and a message
-- that was accepted although its send failed.
abbrev pub faults_of : Run → ℕ
faults_of r = one_if r.expired + (one_if_some r.faults.set_error + one_if r.transport.arrived)

abbrev pub all_faults : List Run → ℕ
all_faults [] = 0
all_faults (r ∷ runs) = faults_of r + all_faults runs

-- The world that a run finds.
abbrev pub found_by : Run → World → World
found_by r w = record w { db = r.db; markers = if r.expired then [] else w.markers }

-- 1 while no marker keeps the job from sending.
abbrev pub unmarked : String → World → ℕ
unmarked marker w = if includes w.markers marker then 0 else 1

module _ (layout : String → String) (e : MailEnv) (links : Links) (job : Job) where
  -- A step from a world to the next: an e-mail more needs a marker less, or a fault; none is taken
  -- back; and a marker that is written says that an e-mail went out.
  pub record Step (marker : String) (k : ℕ) (w v : World) : Type 0 where
    pub bounded : length v.sent + unmarked marker v ≤ length w.sent + unmarked marker w + k
    pub kept : length w.sent ≤ length v.sent
    pub marks :
        includes w.markers marker ≡ false
        → includes v.markers marker ≡ true
        → length w.sent + 1 ≤ length v.sent

  module _ (marker : String) (has_marker : marker_of job.id ≡ some marker) where
    stays : (k : ℕ) (w : World) → Step marker k w w
    stays k w = record { bounded = omega arith; kept = omega arith; marks = λ h l. cc }

    sent-Step :
        (faults : MarkerFaults) (arrived : Bool) (m : MailMessage) (x : Option MailError)
        (w : World)
        → includes w.markers marker ≡ false
        → Step marker
            (one_if_some faults.set_error + one_if arrived)
            w
            (mark faults marker (send_letter m arrived x w)).1
    sent-Step faults true m (some x) w fresh = record {
      bounded = omega arith;
      kept = omega arith;
      marks = λ h l. omega arith;
    }
    sent-Step faults false m (some x) w fresh = stays _ w
    sent-Step faults arrived m none w fresh = elim (Option-cases faults.set_error) [
      | inl e ↦ rw e (record {
        bounded = unfold includes in rw (eq_refl marker, fresh) (omega arith);
        kept = omega arith;
        marks = λ h l. omega arith;
      })
      | inr (reason, e) ↦
          rw e (record { bounded = omega arith; kept = omega arith; marks = λ h l. omega arith })
    ]

    weaker : (k l : ℕ) (w v : World) → k ≤ l → Step marker k w v → Step marker l w v
    weaker k l w v h s =
        let bounded = s.bounded in record { bounded = omega arith; kept = s.kept; marks = s.marks }

    reaches-arrived : (t : Transport) → one_if (reaches e.config t) ≤ one_if t.arrived
    reaches-arrived t = by_problems (validate_mail_config e.config.mail_driver e.config) refl
      where
        by_problems :
            (problems : List String)
            → validate_mail_config e.config.mail_driver e.config ≡ problems
            → one_if (reaches e.config t) ≤ one_if t.arrived
        by_problems [] q = rw (q, one_if) (omega arith)
        by_problems (p ∷ ps) q = rw (q, one_if) (omega arith)

    dispatch-Step :
        (t : Transport) (faults : MarkerFaults) (w : World)
        → includes w.markers marker ≡ false
        → Step marker
            (one_if_some faults.set_error + one_if t.arrived)
            w
            (mark faults marker (dispatch layout e links t job w)).1
    unfolding dispatch
    dispatch-Step t faults w fresh = by_letter (letter_of e links job) refl
      where
        by_letter :
            (p : Prepared)
            → letter_of e links job ≡ p
            → Step marker
                (one_if_some faults.set_error + one_if t.arrived)
                w
                (mark faults marker (dispatch layout e links t job w)).1
        by_letter (refused x) q = rw (q, dispatch) (stays _ w)
        by_letter (ready letter) q =
            let m = compose layout e (address job) letter w.db in
            let enough = reaches-arrived t in
            rw (q, dispatch)
              (weaker _ _ _ _ (omega arith)
                (sent-Step faults (reaches e.config t) m (send_mail e.config t m) w fresh))

    pub run-Step :
        (t : Transport) (faults : MarkerFaults) (w : World)
        → Step marker
            (one_if_some faults.set_error + one_if t.arrived)
            w
            (process_email_job layout e links t faults job w).1
    unfolding process_email_job process_marked
    run-Step t faults w =
        subst
          (λ o.
            Step marker (one_if_some faults.set_error + one_if t.arrived) w
              (process_marked layout e links t faults job w o).1)
          (sym has_marker)
          (elim (Option-cases faults.get_error) [
            | inr (reason, g) ↦ rw (g, process_marked) (stays _ w)
            | inl g ↦ elim (Bool-cases (includes w.markers marker)) [
              | inl h ↦ rw (g, h, process_marked) (stays _ w)
              | inr h ↦ rw (g, h, process_marked) (dispatch-Step t faults w h)
            ]
          ])
