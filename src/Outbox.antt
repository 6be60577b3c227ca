-- ===== src/Outbox.antt =====
-- src/modules/outbox/outbox.repository.ts. The database's now() and the process's Date are passed
-- to each statement.
pub mod Claims
pub mod Leases
use Prim.Native.String
use express_core.Base.{
  ℕ, zero, suc, ◌+◌, ◌*◌, String, Bool, true, false, ◌&&◌, not, Option, none, some, List, [], ◌∷◌,
  ◌++◌, map, ltb, leb, ◌==◌, update_where, delete_where, count_where, if◌then◌else◌, length,
}
use express_core.Base.Bytes.{take}
use express_core.Store.{
  OutboxRow, OutboxStatus, pending, published, failed, Payload, DeadLetterJob, Db,
}
use express_core.Store.Exec.{Tx, ok}
use express_core.Slug.Decimal.{decimal}
use Claims.{insert_by, sort_by, contains}

-- `outbox-${id}`
unfoldable pub outbox_job_id : ℕ → String
outbox_job_id id = String.◌++◌ "outbox-" (decimal id)

abbrev pub is_pending : OutboxStatus → Bool
is_pending pending = true
is_pending _ = false

abbrev pub has_status : OutboxStatus → OutboxStatus → Bool
has_status pending pending = true
has_status published published = true
has_status failed failed = true
has_status _ _ = false

-- The defaults of the schema: PENDING, no attempt, available at once.
unfoldable pub new_row : ℕ → ℕ → String → String → Payload → OutboxRow
new_row id now queue_name job_name payload = record {
  id = id;
  queue_name = queue_name;
  job_name = job_name;
  payload = payload;
  status = pending;
  attempts = 0;
  available_at = now;
  published_at = none;
  last_error = none;
}

-- The row that is created gets the next id, which is returned.
unfoldable pub enqueue : ℕ → String → String → Payload → Tx ℕ
enqueue now queue_name job_name payload s = ok (
  s.next_outbox_id,
  record s {
    outbox = new_row s.next_outbox_id now queue_name job_name payload ∷ s.outbox;
    next_outbox_id = s.next_outbox_id + 1;
  },
)

abbrev pub is_due : ℕ → OutboxRow → Bool
is_due now r = is_pending r.status && leb r.available_at now

-- Due rows that no concurrent relay holds (SKIP LOCKED), oldest first, at most `limit`.
unfoldable pub select_batch : ℕ → ℕ → List ℕ → List OutboxRow → List OutboxRow
select_batch limit now locked rows = take limit (
    sort_by (λ r. r.available_at)
      (delete_where (λ r. not (is_due now r && not (contains locked r.id))) rows))

abbrev pub lease : ℕ → OutboxRow → OutboxRow
lease until r = record r { available_at = until }

-- The rows of RETURNING, here in the order of the selection; the database promises no order.
unfoldable pub claim_batch : ℕ → ℕ → ℕ → List ℕ → Tx (List OutboxRow)
claim_batch limit lease_seconds now locked s =
    let batch = select_batch limit now locked s.outbox in
    let ids = map (λ (r : OutboxRow). r.id) batch in
    ok (
      map (lease (now + lease_seconds * 1000)) batch,
      record s {
        outbox =
            update_where (λ r. contains ids r.id) (lease (now + lease_seconds * 1000)) s.outbox;
      },
    )

-- where: { id, status: 'PENDING' }
abbrev pub is_open : ℕ → OutboxRow → Bool
is_open id r = (r.id == id) && is_pending r.status

abbrev pub finalize : ℕ → (OutboxRow → OutboxRow) → Tx Bool
finalize id f s = ok (
  count_where (is_open id) s.outbox == 1,
  record s { outbox = update_where (is_open id) f s.outbox },
)

abbrev pub to_published : ℕ → OutboxRow → OutboxRow
to_published now r = record r {
  status = published;
  published_at = some now;
  available_at = now;
  payload = [];
  last_error = none;
}

unfoldable pub mark_published : ℕ → ℕ → Tx Bool
mark_published id now = finalize id (to_published now)

abbrev pub to_retry : String → ℕ → OutboxRow → OutboxRow
to_retry error available_at r = record r {
  attempts = r.attempts + 1;
  last_error = some error;
  available_at = available_at;
}

unfoldable pub mark_retry : ℕ → String → ℕ → Tx Bool
mark_retry id error available_at = finalize id (to_retry error available_at)

abbrev pub to_failed : String → ℕ → ℕ → OutboxRow → OutboxRow
to_failed reason attempts now r = record r {
  status = failed;
  attempts = attempts;
  last_error = some reason;
  available_at = now;
}

unfoldable pub dead_letter_of : ℕ → OutboxRow → String → ℕ → ℕ → DeadLetterJob
dead_letter_of id row reason attempts now = record {
  id = id;
  queue_name = row.queue_name;
  job_name = row.job_name;
  job_id = some (outbox_job_id row.id);
  payload = row.payload;
  failed_reason = reason;
  attempts_made = attempts;
  created_at = now;
  redriven_at = none;
  redriven_by = none;
  redrive_outbox_id = none;
}

-- One transaction: the FAILED status and its dead letter, or neither.
unfoldable pub mark_failed : OutboxRow → String → ℕ → ℕ → Tx Bool
mark_failed row reason attempts now s =
    if count_where (is_open row.id) s.outbox == 0
    then ok (false, s)
    else ok (
      true,
      record s {
        outbox = update_where (is_open row.id) (to_failed reason attempts now) s.outbox;
        dead_letter_jobs =
            dead_letter_of s.next_dead_letter_id row reason attempts now ∷ s.dead_letter_jobs;
        next_dead_letter_id = s.next_dead_letter_id + 1;
      },
    )
