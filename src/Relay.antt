-- ===== src/Relay.antt =====
-- src/jobs/relay/outbox-relay.ts. `refusal` is what the broker and the five-second bound answer to
-- `queue.add`: the message of the error, or none when the job was accepted.
pub mod Accounted
use Prim.Native.String
use express_core.Base.{
  ℕ, ◌+◌, ◌*◌, ◌^◌, min, String, Bool, true, false, Option, none, some, List, [], ◌∷◌, leb, ◌||◌,
  ◌==ₛ◌, if◌then◌else◌,
}
use express_core.Store.{OutboxRow, Payload, Db}
use express_core.Store.Exec.{Tx, ok, err}
use express_core.Config.{Env}
use express_core.Slug.Decimal.{decimal}
use express_core.Outbox.{outbox_job_id, claim_batch, mark_published, mark_retry, mark_failed}

-- A job that the broker accepted, with its custom id.
pub record Job : Type 0 where
  pub queue_name : String
  pub job_name : String
  pub payload : Payload
  pub job_id : String

-- `jobs` lists the accepted calls of `add`, the latest first.
pub record World : Type 0 where
  pub db : Db
  pub jobs : List Job

pub data PublishOutcome : Type 0 where
  published retry failed skipped : PublishOutcome

unfoldable pub retry_delay_seconds : ℕ → ℕ
retry_delay_seconds attempts = min (5 * 2 ^ attempts) 3600

-- QUEUES[row.queueName]
unfoldable pub is_routable : String → Bool
is_routable name = (name ==ₛ "email") || (name ==ₛ "system")

unfoldable pub job_of : OutboxRow → Job
job_of row = record {
  queue_name = row.queue_name;
  job_name = row.job_name;
  payload = row.payload;
  job_id = outbox_job_id row.id;
}

-- A statement of the repository, and the outcome of its answer.
abbrev pub settle : Tx Bool → PublishOutcome → World → PublishOutcome × World
settle m yes_outcome w = elim (m w.db) [
  | ok r ↦ ((if r.0 then yes_outcome else skipped), record w { db = r.1 })
  | err e ↦ (skipped, w)
]

module _ (e : Env) (refusal : OutboxRow → Option String) (now : ℕ) where
  -- The `catch` of processRow.
  unfoldable pub after_refusal : OutboxRow → String → World → PublishOutcome × World
  after_refusal row reason w =
      let attempts = row.attempts + 1 in
      if leb e.outbox_max_publish_attempts attempts
      then settle
          (mark_failed row
            (String.◌++◌ "Publish failed after "
              (String.◌++◌ (decimal attempts) (String.◌++◌ " attempts: " reason)))
            attempts now)
          failed w
      else settle (mark_retry row.id reason (now + retry_delay_seconds attempts * 1000)) retry w

  unfoldable pub process_row : OutboxRow → World → PublishOutcome × World
  process_row row w =
      if is_routable row.queue_name
      then elim (refusal row) [
        | none ↦
            settle (mark_published row.id now) published (record w { jobs = job_of row ∷ w.jobs })
        | some reason ↦ after_refusal row reason w
      ]
      else settle
          (mark_failed row (String.◌++◌ "Unknown queue: " row.queue_name) (row.attempts + 1) now)
          failed w

  abbrev pub count_published : PublishOutcome → ℕ
  count_published published = 1
  count_published _ = 0

  abbrev pub stops : PublishOutcome → Bool
  stops retry = true
  stops _ = false

  -- The loop of relayOnce: the number published, the rows processed and the world after.
  unfoldable pub relay_rows : List OutboxRow → World → ℕ × World
  relay_rows [] w = (0, w)
  relay_rows (row ∷ rows) w =
      let (outcome, w') = process_row row w in
      let rest = relay_rows rows w' in
      if stops outcome
      then (count_published outcome, w')
      else (count_published outcome + rest.0, rest.1)

  unfoldable pub relay_once : List ℕ → World → ℕ × World
  relay_once locked w =
      elim (claim_batch e.outbox_relay_batch e.outbox_lease_seconds now locked w.db) [
        | ok r ↦ relay_rows r.0 (record w { db = r.1 })
        | err x ↦ (0, w)
      ]
