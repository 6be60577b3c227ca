-- ===== src/Tests/Messages.antt =====
-- One row of the outbox and one dead letter.
use express_core.Relay.Accounted.{Accounted, relay_once-Accounted}
use express_core.Relay.{relay_once, is_routable}
use express_core.Outbox.{lease, claim_batch, select_batch, new_row}
use express_core.Outbox.Claims.{sort_by, insert_by, contains}
use express_core.Outbox.Leases.{ids_of, claim_batch-exclusive}
use express_core.DeadLetter.{replay_guard, redrive, already_redriven}
use express_core.DeadLetter.Laws.{job_at, redrive_once}
use express_core.Auth.Tokens.{of_user}
use express_core.Store.{RefreshToken}
use express_core.Base.{
  [], ◌∷◌, refl, none, Option, All, some, find_first, ℕ, count_where, String, List, if◌then◌else◌,
  ◌==◌, update_where, ◌≡◌, delete_where, false, true, arith, ◌&&◌, not,
}
use express_core.Config.{default_env}
use express_core.Store.{OutboxRow, DeadLetterJob, Db, pending, empty_db, RefreshToken}
use express_core.Store.Exec.{ok, err}
use express_core.Tests.{open_crypto, session}

abbrev message : OutboxRow
message = record {
  id = 1;
  queue_name = "email";
  job_name = "sendOtpEmail";
  payload = [];
  status = pending;
  attempts = 4;
  available_at = 100;
  published_at = none;
  last_error = none;
}

abbrev one_message : Db
one_message = record empty_db { outbox = message ∷ [] }

abbrev down : OutboxRow → Option String
down r = some "connection refused"

relay_once-Accounted_example :
    Accounted (relay_once default_env down 200 [] (record { db = one_message; jobs = [] })).1
relay_once-Accounted_example =
    relay_once-Accounted default_env down 200 [] (record { db = one_message; jobs = [] }) (refl, tt)

abbrev leased_once : Db
leased_once = record empty_db { outbox = lease 60200 message ∷ [] }

first_claim : claim_batch 50 60 200 [] one_message ≡ ok (lease 60200 message ∷ [], leased_once)
unfolding claim_batch select_batch sort_by insert_by contains update_where delete_where
first_claim = refl

second_claim : claim_batch 50 60 300 [] leased_once ≡ ok ([], leased_once)
unfolding claim_batch select_batch sort_by insert_by contains update_where delete_where
second_claim = refl

claim_batch-exclusive_example :
    All (λ (r : OutboxRow). contains (ids_of (lease 60200 message ∷ [])) r.id ≡ false) []
claim_batch-exclusive_example =
    claim_batch-exclusive 50 60 200 [] one_message leased_once leased_once
      (lease 60200 message ∷ []) [] 50 60 300 [] first_claim second_claim (omega arith)

abbrev letter : DeadLetterJob
letter = record {
  id = 5;
  queue_name = "system";
  job_name = "cleanup";
  job_id = some "outbox-1";
  payload = [];
  failed_reason = "boom";
  attempts_made = 5;
  created_at = 50;
  redriven_at = none;
  redriven_by = none;
  redrive_outbox_id = none;
}

abbrev one_letter : Db
one_letter = record empty_db { dead_letter_jobs = letter ∷ [] }

found_letter : job_at 5 one_letter ≡ some letter
unfolding find_first
found_letter = refl

routable : is_routable "system" ≡ true
unfolding is_routable
routable = refl

allowed : replay_guard open_crypto 400 "cleanup" [] one_letter ≡ none
unfolding replay_guard
allowed = refl

redrive_once_example :
    (s' : Db) × (redrive open_crypto 400 5 none one_letter ≡ (
      ok (record {
        dead_letter_id = 5;
        outbox_id = 1;
        queue_name = "system";
        job_name = "cleanup";
      }),
      s',
    ))
    × (s'.outbox ≡ new_row 1 400 "system" "cleanup" [] ∷ [])
    × (redrive open_crypto 500 5 (some "ops") s'
        ≡ (err (already_redriven open_crypto 5 400 (some 1)), s'))
redrive_once_example =
    redrive_once open_crypto 400 500 5 none (some "ops") one_letter letter found_letter refl
      routable allowed

-- A rotation in flight commits its successor while the first DELETE runs.
abbrev late : ℕ → List RefreshToken → List RefreshToken → List RefreshToken
late n seen rows =
    if (n == 9) && not (count_where (of_user 7) seen == 0) then session ∷ rows else rows

abbrev one_token : Db
one_token = record empty_db { refresh_tokens = session ∷ [] }
