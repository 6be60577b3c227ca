-- ===== src/Relay/Accounted.antt =====
-- What the relay leaves of each outbox row: an accepted job or a dead letter (outbox-relay.ts).
use express_core.Base.{
  find_first, update_where, ◌∷◌, [], List, Option, All, ℕ, String, ◌≡◌, Bool, true, Bool-cases,
  is_some, false, arith, count_where, leb, inl, ◌==◌, ◌==ₛ◌, ◌+◌, some, inr, eq_refl, Option-cases,
  none, refl,
}
use express_core.Outbox.{
  outbox_job_id, is_open, to_published, to_failed, dead_letter_of, mark_published, mark_retry,
  mark_failed, claim_batch, lease,
}
use express_core.Relay.{
  Job, World, job_of, settle, process_row, after_refusal, relay_rows, relay_once, PublishOutcome,
  Env, OutboxRow, is_routable, stops,
}
use express_core.Store.{published, failed, pending, DeadLetterJob}

-- The row's job was accepted by the broker.
abbrev pub is_sent : List Job → OutboxRow → Bool
is_sent jobs r = is_some (find_first (λ (j : Job). j.job_id ==ₛ outbox_job_id r.id) jobs)

abbrev pub has_job_id : Option String → String → Bool
has_job_id none t = false
has_job_id (some u) t = u ==ₛ t

-- The row's job has a dead letter.
abbrev pub is_buried : List DeadLetterJob → OutboxRow → Bool
is_buried dead r =
    is_some (find_first (λ (d : DeadLetterJob). has_job_id d.job_id (outbox_job_id r.id)) dead)

abbrev pub is_settled : List Job → List DeadLetterJob → OutboxRow → Bool
is_settled jobs dead r = elim r.status [
  | pending ↦ true
  | published ↦ is_sent jobs r
  | failed ↦ is_buried dead r
]

abbrev pub Accounted : World → Type 0
Accounted w = All (λ r. is_settled w.jobs w.db.dead_letter_jobs r ≡ true) w.db.outbox

-- More jobs and more dead letters settle no row less.
settled-job :
    (j : Job) (jobs : List Job) (dead : List DeadLetterJob) (rows : List OutboxRow)
    → All (λ r. is_settled jobs dead r ≡ true) rows
    → All (λ r. is_settled (j ∷ jobs) dead r ≡ true) rows
unfolding find_first
settled-job j jobs dead [] h = tt
settled-job j jobs dead (r ∷ rows) h = (ground (arith, h.0), settled-job j jobs dead rows h.1)

settled-dead :
    (d : DeadLetterJob) (jobs : List Job) (dead : List DeadLetterJob) (rows : List OutboxRow)
    → All (λ r. is_settled jobs dead r ≡ true) rows
    → All (λ r. is_settled jobs (d ∷ dead) r ≡ true) rows
unfolding find_first
settled-dead d jobs dead [] h = tt
settled-dead d jobs dead (r ∷ rows) h = (ground (arith, h.0), settled-dead d jobs dead rows h.1)

-- An update of the rows of one open id that leaves them settled.
settled-update :
    (jobs : List Job) (dead : List DeadLetterJob) (id : ℕ) (f : OutboxRow → OutboxRow)
    (rows : List OutboxRow)
    → ((r : OutboxRow)
        → is_open id r ≡ true
        → is_settled jobs dead r ≡ true
        → is_settled jobs dead (f r) ≡ true)
    → All (λ r. is_settled jobs dead r ≡ true) rows
    → All (λ r. is_settled jobs dead r ≡ true) (update_where (is_open id) f rows)
unfolding update_where
settled-update jobs dead id f [] k h = tt
settled-update jobs dead id f (r ∷ rows) k h = elim (Bool-cases (is_open id r)) [
  | inl e ↦ rw e (k r e h.0, settled-update jobs dead id f rows k h.1)
  | inr e ↦ rw e (h.0, settled-update jobs dead id f rows k h.1)
]

is_open-id : (id : ℕ) (r : OutboxRow) → is_open id r ≡ true → r.id ≡ id
is_open-id id r h = ground arith

module _ (e : Env) (refusal : OutboxRow → Option String) (now : ℕ) where
  failed-Accounted :
      (row : OutboxRow) (reason : String) (attempts : ℕ) (w : World)
      → Accounted w
      → Accounted (settle (mark_failed row reason attempts now) PublishOutcome.failed w).1
  unfolding mark_failed dead_letter_of find_first
  failed-Accounted row reason attempts w h =
      elim (Bool-cases (count_where (is_open row.id) w.db.outbox == 0)) [
        | inl none_open ↦ rw (none_open, settle, mark_failed) h
        | inr some_open ↦
            rw (some_open, settle, mark_failed)
              (settled-update w.jobs
                (dead_letter_of w.db.next_dead_letter_id row reason attempts now
                  ∷ w.db.dead_letter_jobs)
                row.id (to_failed reason attempts now) w.db.outbox
                (λ r o k. rw (is_open-id row.id r o, eq_refl (outbox_job_id row.id)) refl)
                (settled-dead (dead_letter_of w.db.next_dead_letter_id row reason attempts now)
                  w.jobs w.db.dead_letter_jobs w.db.outbox h))
      ]

  refusal-Accounted :
      (row : OutboxRow) (reason : String) (w : World)
      → Accounted w
      → Accounted (after_refusal e refusal now row reason w).1
  unfolding after_refusal mark_retry
  refusal-Accounted row reason w h =
      elim (Bool-cases (leb e.outbox_max_publish_attempts (row.attempts + 1))) [
        | inl last ↦ rw last (failed-Accounted row _ (row.attempts + 1) w h)
        | inr again ↦
            rw again
              (settled-update w.jobs w.db.dead_letter_jobs row.id _ w.db.outbox (λ r o k. k) h)
      ]

  process_row-Accounted :
      (row : OutboxRow) (w : World) → Accounted w → Accounted (process_row e refusal now row w).1
  unfolding process_row mark_published job_of find_first
  process_row-Accounted row w h = elim (Bool-cases (is_routable row.queue_name)) [
    | inr unknown ↦ rw unknown (failed-Accounted row _ (row.attempts + 1) w h)
    | inl known ↦ elim (Option-cases (refusal row)) [
      | inr (reason, refused) ↦ rw (known, refused) (refusal-Accounted row reason w h)
      | inl accepted ↦
          rw (known, accepted)
            (settled-update (job_of row ∷ w.jobs) w.db.dead_letter_jobs row.id (to_published now)
              w.db.outbox (λ r o k. rw (is_open-id row.id r o, eq_refl (outbox_job_id row.id)) refl)
              (settled-job _ w.jobs w.db.dead_letter_jobs w.db.outbox h))
    ]
  ]

  rows-Accounted :
      (rows : List OutboxRow) (w : World)
      → Accounted w
      → Accounted (relay_rows e refusal now rows w).1
  unfolding relay_rows
  rows-Accounted [] w h = h
  rows-Accounted (row ∷ rows) w h =
      let next = process_row-Accounted row w h in
      elim (Bool-cases (stops e refusal now (process_row e refusal now row w).0)) [
        | inl e ↦ rw e next
        | inr e ↦ rw e (rows-Accounted rows _ next)
      ]

  -- Whatever the broker answers and whichever rows other relays hold: if every published row has
  -- an accepted job and every failed row has a dead letter before a pass of the relay, then the
  -- same holds after it.
  pub relay_once-Accounted :
      (locked : List ℕ) (w : World) → Accounted w → Accounted (relay_once e refusal now locked w).1
  unfolding relay_once claim_batch update_where
  relay_once-Accounted locked w h = rows-Accounted _ _ (leased_rows _ _ w.db.outbox h)
    where
      leased_rows :
          (p : OutboxRow → Bool) (until : ℕ) (rows : List OutboxRow)
          → All (λ r. is_settled w.jobs w.db.dead_letter_jobs r ≡ true) rows
          → All
              (λ r. is_settled w.jobs w.db.dead_letter_jobs r ≡ true)
              (update_where p (lease until) rows)
      leased_rows p until [] k = tt
      leased_rows p until (r ∷ rows) k = (ground (arith, k.0), leased_rows p until rows k.1)
