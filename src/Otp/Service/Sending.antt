-- ===== src/Otp/Service/Sending.antt =====
-- Sending a code again (`sendCode` of otp.service.ts).
use express_core.Base.RowLaws.{Unique, Unique-update}
use express_core.Base.{
  ◌∷◌, [], none, refl, String, ℕ, ◌≡◌, is_some, some, false, ◌<◌, ◌+◌, ◌*◌, leb-false_of_lt, ◌≤◌,
  ap, true, le→leb, lt→ltb, leb, inl, inr, Bool-cases, Option-cases, eq_refl, Bool, subst,
  find_first, sym, ◌∙◌, leb→le, leb-false_lt,
}
use express_core.Accounts.{find_user_by_email_insensitive}
use express_core.Otp.Code.{normalize_email, hash_otp_code, registration_ticket}
use express_core.Store.{text, number, pending, Db, EmailOtp}
use express_core.Store.Exec.{transaction-ok, ok, err, app, Tx}
use express_core.Otp.{issue, reissue, new_otp, has_email, set_otps}
use express_core.Otp.Laws.{row_of, update_row, row_of-update_row}
use express_core.Otp.Service.{
  send_code, verify_code, issue_code, code_payload, answer_issue, Crypto, Env, Result,
}
use express_core.Otp.Service.Laws.{verify_right}
use express_core.Outbox.{enqueue, new_row}

module _ (id email code_hash : String) (minutes cooldown now : ℕ) (s : Db) where
  issue_missing :
      row_of email s ≡ none
      → issue id email code_hash minutes cooldown now s
        ≡ ok (true, set_otps (new_otp id email code_hash minutes now ∷ s.email_otps) s)
  unfolding issue
  issue_missing missing = rw (missing, issue, row_of) refl

  module _ (r : EmailOtp) (found : row_of email s ≡ some r) where
    issue_refused :
        now < r.sent_at + cooldown * 1000
        → issue id email code_hash minutes cooldown now s ≡ ok (false, s)
    unfolding issue
    issue_refused soon = rw (found, issue, row_of, leb-false_of_lt _ _ soon) refl

    issue_replaced :
        r.sent_at + cooldown * 1000 ≤ now
        → issue id email code_hash minutes cooldown now s
          ≡ ok (true, update_row email (reissue code_hash minutes now) s)
    unfolding issue update_row
    issue_replaced late = rw (found, issue, row_of, le→leb _ _ late) refl

module _ (c : Crypto) (e : Env) (id raw_email code : String) (now : ℕ) (s : Db) where
  abbrev hash_of : String
  hash_of = hash_otp_code c (normalize_email c raw_email) code

  abbrev issue_now : Tx Bool
  issue_now =
      issue id (normalize_email c raw_email) hash_of e.otp_expires_minutes
        e.otp_resend_cooldown_seconds now

  -- The message with the code, behind the issue of the code.
  abbrev mailed : Db → Db
  mailed s₁ = record s₁ {
    outbox =
        new_row s₁.next_outbox_id now "email" "sendOtpEmail"
          (code_payload c e (normalize_email c raw_email) code)
        ∷ s₁.outbox;
    next_outbox_id = s₁.next_outbox_id + 1;
  }

  send_registered :
      is_some (find_user_by_email_insensitive c (normalize_email c raw_email) s) ≡ true
      → send_code c e id raw_email code now s ≡ (err (app "Email already registered" 409), s)
  unfolding send_code
  send_registered taken = rw taken refl

  module _
      (free : is_some (find_user_by_email_insensitive c (normalize_email c raw_email) s)
        ≡ false) where
    send_issued :
        (s₁ : Db)
        → issue_now s ≡ ok (true, s₁)
        → send_code c e id raw_email code now s ≡ (ok tt, mailed s₁)
    unfolding send_code issue_code enqueue
    send_issued s₁ issued = rw free (
        ap (answer_issue c e) (
          transaction-ok (issue_code c e id (normalize_email c raw_email) code now) s
            (true, mailed s₁) (rw issued refl)))

    send_refused :
        issue_now s ≡ ok (false, s)
        → send_code c e id raw_email code now s
          ≡ (err (app "Please wait before requesting a new code" 429), s)
    unfolding send_code issue_code
    send_refused closed = rw free (
        ap (answer_issue c e) (
          transaction-ok (issue_code c e id (normalize_email c raw_email) code now) s (false, s)
            (rw closed refl)))

-- What a code that was sent leaves: the row of the address, with the time, and no user with it.
record Sent (c : Crypto) (email : String) (now : ℕ) (s : Db) : Type 0 where
  row : EmailOtp
  found : row_of email s ≡ some row
  at : row.sent_at ≡ now
  unregistered : is_some (find_user_by_email_insensitive c email s) ≡ false

module _ (c : Crypto) (e : Env) (id raw_email code : String) (now : ℕ) (s : Db) where
  issued-Sent :
      (s₁ s' : Db) (r : EmailOtp)
      → is_some (find_user_by_email_insensitive c (normalize_email c raw_email) s) ≡ false
      → issue_now c e id raw_email code now s s ≡ ok (true, s₁)
      → send_code c e id raw_email code now s ≡ (ok tt, s')
      → s₁.users ≡ s.users
      → row_of (normalize_email c raw_email) s₁ ≡ some r
      → r.sent_at ≡ now
      → Sent c (normalize_email c raw_email) now s'
  unfolding find_user_by_email_insensitive
  issued-Sent s₁ s' r free issued answered kept found at =
      let sent = send_issued c e id raw_email code now s free s₁ issued in
      subst (Sent c (normalize_email c raw_email) now)
        (ap (λ (x : Result (Unit {0}) × Db). x.1) (sym sent ∙ answered))
        (record { row = r; found = found; at = at; unregistered = rw kept free })

  send_code-Sent :
      (s' : Db)
      → send_code c e id raw_email code now s ≡ (ok tt, s')
      → Sent c (normalize_email c raw_email) now s'
  unfolding update_row new_otp find_first
  send_code-Sent s' answered =
      let email = normalize_email c raw_email in
      let hash = hash_of c e id raw_email code now s in
      elim (Bool-cases (is_some (find_user_by_email_insensitive c email s))) [
        | inl taken ↦ absurd (cc (send_registered c e id raw_email code now s taken, answered))
        | inr free ↦ elim (Option-cases (row_of email s)) [
          | inl missing ↦
              issued-Sent _ s' (new_otp id email hash e.otp_expires_minutes now) free
                (issue_missing id email hash e.otp_expires_minutes e.otp_resend_cooldown_seconds now
                  s missing)
                answered refl (rw (eq_refl email) refl) refl
          | inr (r, found) ↦
              elim (Bool-cases (leb (r.sent_at + e.otp_resend_cooldown_seconds * 1000) now)) [
                | inl late ↦
                    issued-Sent _ s' (reissue hash e.otp_expires_minutes now r) free
                      (issue_replaced id email hash e.otp_expires_minutes
                        e.otp_resend_cooldown_seconds now s r found (leb→le _ _ late))
                      answered refl
                      (row_of-update_row email (reissue hash e.otp_expires_minutes now) s r
                        (λ x. refl) found)
                      refl
                | inr soon ↦ absurd (
                    cc (
                      send_refused c e id raw_email code now s free (
                          issue_refused id email hash e.otp_expires_minutes
                            e.otp_resend_cooldown_seconds now s r found (leb-false_lt _ _ soon)),
                      answered,
                    ))
              ]
        ]
      ]

  -- After a code was sent to an address, sending another one to it, under any spelling with the
  -- same normal form, before the cooldown has passed is refused and changes nothing.
  pub send_code-cooldown :
      (id' raw_email' code' : String) (now' : ℕ) (s' : Db)
      → send_code c e id raw_email code now s ≡ (ok tt, s')
      → normalize_email c raw_email' ≡ normalize_email c raw_email
      → now' < now + e.otp_resend_cooldown_seconds * 1000
      → send_code c e id' raw_email' code' now' s'
        ≡ (err (app "Please wait before requesting a new code" 429), s')
  send_code-cooldown id' raw_email' code' now' s' answered same soon =
      let sent = subst (λ m. Sent c m now s') (sym same) (send_code-Sent s' answered) in
      send_refused c e id' raw_email' code' now' s' sent.unregistered (
        issue_refused id' (normalize_email c raw_email') (hash_of c e id' raw_email' code' now' s')
          e.otp_expires_minutes e.otp_resend_cooldown_seconds now' s' sent.row sent.found
          (let at = sent.at in rw at soon))

  -- When row ids are unique, an address is not registered and its code was sent at least the
  -- cooldown ago, and at least one attempt is allowed, sending a code again succeeds: the row of
  -- the address keeps its id and has the hash of the new code, no attempt, no verification and a
  -- new expiry; one pending message with the code is added to the outbox; and verifying the code
  -- before it expires is answered with the row's ticket.
  pub send_code-replaces :
      (r : EmailOtp) (db_now now' : ℕ)
      → is_some (find_user_by_email_insensitive c (normalize_email c raw_email) s) ≡ false
      → Unique (λ (x : EmailOtp). x.id) s.email_otps
      → row_of (normalize_email c raw_email) s ≡ some r
      → r.sent_at + e.otp_resend_cooldown_seconds * 1000 ≤ now
      → 1 ≤ e.otp_max_attempts
      → db_now < now + e.otp_expires_minutes * 60000
      → (s' : Db) × (send_code c e id raw_email code now s ≡ (ok tt, s'))
        × (row_of (normalize_email c raw_email) s'
            ≡ some (record {
              id = r.id;
              email = r.email;
              code_hash = hash_otp_code c (normalize_email c raw_email) code;
              attempts = 0;
              sent_at = now;
              expires_at = now + e.otp_expires_minutes * 60000;
              verified_at = none;
              consumed_at = none;
            }))
        × (s'.outbox
            ≡ (record {
              id = s.next_outbox_id;
              queue_name = "email";
              job_name = "sendOtpEmail";
              payload =
                  ("email", text (normalize_email c raw_email))
                  ∷ ("code", text code)
                  ∷ ("expiresMinutes", number e.otp_expires_minutes)
                  ∷ [];
              status = pending;
              attempts = 0;
              available_at = now;
              published_at = none;
              last_error = none;
            })
              ∷ s.outbox)
        × ((verify_code c e raw_email code db_now now' s').0 ≡ ok (registration_ticket c r.id now'))
  unfolding update_row new_row code_payload
  send_code-replaces r db_now now' free unique found late some_attempt fresh =
      let email = normalize_email c raw_email in
      let hash = hash_of c e id raw_email code now s in
      let step = reissue hash e.otp_expires_minutes now in
      let s₁ = mailed c e id raw_email code now s (update_row email step s) in
      let row = row_of-update_row email step s r (λ x. refl) found in
      let (s₂, verified, found₂) =
        verify_right c e raw_email code db_now now' s₁ (step r)
          (Unique-update (λ x. x.id) (has_email email) step s.email_otps (λ x. refl) unique) row
          (rw (lt→ltb _ _ fresh, lt→ltb _ _ some_attempt) refl) (eq_refl hash) refl in
      (
        s₁,
        send_issued c e id raw_email code now s free (update_row email step s) (
            issue_replaced id email hash e.otp_expires_minutes e.otp_resend_cooldown_seconds now s r
              found late),
        row,
        refl,
        rw verified refl,
      )
