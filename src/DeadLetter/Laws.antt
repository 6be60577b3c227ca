-- ===== src/DeadLetter/Laws.antt =====
-- `redrive` of dead-letter.service.ts, applied once and again.
use mathlib.Core.Option
use express_core.Base.RowLaws.{find_first-update, find_first-sat}
use express_core.Auth.EmailTokens.{use_at}
use express_core.Config.{Env}
use express_core.Store.{User, PasswordResetToken}
use express_core.Base.{
  update_where, count_where, find_first, ℕ, Option, List, String, ◌≡◌, ◌==◌, ◌∷◌, ◌+◌, some, none,
  false, arith, true, [], refl, if◌then◌else◌, ◌∙◌, ap, ◌≤◌,
}
use express_core.Store.Exec.{transaction-ok, transaction-err, ok, err}
use express_core.Outbox.{enqueue, new_row}
use express_core.Auth.Verification.{reset_password}
use express_core.Auth.Verification.Laws.{reset_row, reset_password_lem, reset_row-after}
use express_core.DeadLetter.{
  reset_guard, token_of, redrive, redrive_found, redrive_row, stamp_redriven, replay_guard, stamp,
  is_undriven, redrive_steps, Crypto, Db, DeadLetterJob, is_routable, already_redriven, Payload,
}

abbrev pub job_at : ℕ → Db → Option DeadLetterJob
job_at id s = find_first (λ (r : DeadLetterJob). r.id == id) s.dead_letter_jobs

-- The database after a re-drive: one more pending row with the job's payload, and the stamp.
abbrev pub redriven : ℕ → Option String → ℕ → DeadLetterJob → Db → Db
redriven id by now row s = record s {
  outbox = new_row s.next_outbox_id now row.queue_name row.job_name row.payload ∷ s.outbox;
  next_outbox_id = s.next_outbox_id + 1;
  dead_letter_jobs =
      update_where (is_undriven id) (stamp now by s.next_outbox_id) s.dead_letter_jobs;
}

undriven-positive :
    (id : ℕ) (rows : List DeadLetterJob) (row : DeadLetterJob)
    → find_first (λ (r : DeadLetterJob). r.id == id) rows ≡ some row
    → row.redriven_at ≡ none
    → (count_where (is_undriven id) rows == 0) ≡ false
unfolding find_first count_where
undriven-positive id [] row h k = cc
undriven-positive id (r ∷ rows) row h k = ground (arith, undriven-positive id rows row)

module _ (c : Crypto) (now : ℕ) where
  redrive_steps_lem :
      (id : ℕ) (by : Option String) (s : Db) (row : DeadLetterJob)
      → job_at id s ≡ some row
      → row.redriven_at ≡ none
      → is_routable row.queue_name ≡ true
      → replay_guard c now row.job_name row.payload s ≡ none
      → redrive_steps c now id by s
        ≡ ok (
          record {
            dead_letter_id = row.id;
            outbox_id = s.next_outbox_id;
            queue_name = row.queue_name;
            job_name = row.job_name;
          },
          redriven id by now row s,
        )
  unfolding redrive_steps redrive_found redrive_row enqueue stamp_redriven
  redrive_steps_lem id by s row found undriven known allowed =
      rw
        (
          found,
          undriven,
          known,
          allowed,
          undriven-positive id s.dead_letter_jobs row found undriven,
        )
        refl

  redrive_again :
      (id : ℕ) (by : Option String) (s : Db) (row : DeadLetterJob) (at : ℕ)
      → job_at id s ≡ some row
      → row.redriven_at ≡ some at
      → redrive c now id by s ≡ (err (already_redriven c id at row.redrive_outbox_id), s)
  unfolding redrive redrive_steps redrive_found
  redrive_again id by s row at found driven =
      transaction-err (redrive_steps c now id by) s _ (rw (found, driven) refl)

module _ (c : Crypto) where
  -- When a dead-letter job is known, not re-driven, routable and not refused by its guard, a re-
  -- drive succeeds and adds one pending row with the job's queue, name and payload to the outbox;
  -- and a further re-drive, by anyone at any time, is refused and changes nothing.
  pub redrive_once :
      (now later id : ℕ) (by by' : Option String) (s : Db) (row : DeadLetterJob)
      → job_at id s ≡ some row
      → row.redriven_at ≡ none
      → is_routable row.queue_name ≡ true
      → replay_guard c now row.job_name row.payload s ≡ none
      → (s' : Db) × (redrive c now id by s ≡ (
        ok (record {
          dead_letter_id = row.id;
          outbox_id = s.next_outbox_id;
          queue_name = row.queue_name;
          job_name = row.job_name;
        }),
        s',
      ))
        × (s'.outbox
            ≡ new_row s.next_outbox_id now row.queue_name row.job_name row.payload ∷ s.outbox)
        × (redrive c later id by' s'
            ≡ (err (already_redriven c id now (some s.next_outbox_id)), s'))
  unfolding redrive
  redrive_once now later id by by' s row found undriven known allowed = (
    redriven id by now row s,
    transaction-ok (redrive_steps c now id by) s _
        (redrive_steps_lem c now id by s row found undriven known allowed),
    refl,
    redrive_again c later id by' (redriven id by now row s) (stamp now by s.next_outbox_id row) now
        (find_first-update (λ (r : DeadLetterJob). r.id == id) (is_undriven id)
            (stamp now by s.next_outbox_id) s.dead_letter_jobs (λ r. refl)
          ∙ ap (Option.map (λ r. if is_undriven id r then stamp now by s.next_outbox_id r else r))
              found
          ∙ ap some (
              hit row
                (find_first-sat (λ (r : DeadLetterJob). r.id == id) s.dead_letter_jobs row found)
                undriven))
        refl,
  )
    where
      hit :
          (r : DeadLetterJob)
          → (r.id == id) ≡ true
          → r.redriven_at ≡ none
          → (if is_undriven id r then stamp now by s.next_outbox_id r else r)
            ≡ stamp now by s.next_outbox_id r
      hit r h k = rw (h, k) refl

  reset_guard_used :
      (token : String) (later at : ℕ) (s : Db) (r : PasswordResetToken) (payload : Payload)
      → token_of payload ≡ some token
      → reset_row token s ≡ some r
      → r.used_at ≡ some at
      → reset_guard c later payload s ≡ some "the password-reset token was already used"
  unfolding reset_guard
  reset_guard_used token later at s r payload named found used =
      rw (named, reset_guard, found, used) refl

  -- After a successful password reset with an unused, unexpired token of a user with a row, the
  -- guard of the dead-letter re-drive refuses to send the e-mail that carries this token again.
  pub reset-refuses_replay :
      (e : Env) (token password : String) (now later : ℕ) (s : Db) (r : PasswordResetToken)
      (user : User) (payload : Payload)
      → reset_row token s ≡ some r
      → now ≤ r.expires_at
      → r.used_at ≡ none
      → find_first (λ (u : User). u.id == r.user_id) s.users ≡ some user
      → token_of payload ≡ some token
      → replay_guard c later "sendResetPasswordEmail" payload
          (reset_password c e token password now s).1
        ≡ some "the password-reset token was already used"
  unfolding replay_guard
  reset-refuses_replay e token password now later s r user payload found early unused known named =
      rw (reset_password_lem c e token password now s r user found early unused known) (
        reset_guard_used token later now _ (use_at now r) payload named
          (reset_row-after c e token password now s r found) refl)
