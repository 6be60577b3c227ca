-- ===== src/Cron.antt =====
-- src/jobs/cron/index.ts: the jobs that a schedule adds in a time slot. `add` of the queue ignores a
-- job whose id it holds; `to_iso_string` is Date.toISOString.
use Prim.Native.String
use Prim.Native.String.{[], ◌∷◌}
use express_core.Base.{ℕ, ◌*◌, String, List, if◌then◌else◌}
use express_core.Rbac.{includes}
use express_core.Templates.{first}

pub data SlotUnit : Type 0 where
  hour day : SlotUnit

pub record Schedule : Type 0 where
  pub expression : String
  pub unit : SlotUnit
  pub jobs : List String

-- SCHEDULES
abbrev pub schedules : List Schedule
schedules =
    List.◌∷◌
      (record {
        expression = "0 * * * *";
        unit = hour;
        jobs = List.◌∷◌ "cleanupExpiredTokens" List.[];
      })
      (List.◌∷◌
        (record {
          expression = "0 0 * * *";
          unit = day;
          jobs = List.◌∷◌ "cleanupOutbox" (List.◌∷◌ "cleanupDeadLetterJobs" List.[]);
        })
        List.[])

unfoldable pub slot_seconds : SlotUnit → ℕ
slot_seconds hour = 3600
slot_seconds day = 86400

abbrev slot_length : SlotUnit → ℕ
slot_length hour = 13
slot_length day = 10

unfoldable pub slot_key : (ℕ → String) → SlotUnit → ℕ → String
unfolding first
slot_key to_iso_string unit at = first (slot_length unit) (to_iso_string at)

pub record JobOptions : Type 0 where
  pub job_id : String
  pub retention_age : ℕ

unfoldable pub scheduled_job_options : (ℕ → String) → String → SlotUnit → ℕ → JobOptions
unfolding slot_key slot_seconds
scheduled_job_options to_iso_string name unit at = record {
  job_id = String.◌++◌ name (String.◌++◌ "-" (slot_key to_iso_string unit at));
  retention_age = 2 * slot_seconds unit;
}

-- The ids that the queue holds, the latest first.
unfoldable pub add_job : JobOptions → List String → List String
add_job options held = if includes held options.job_id then held else List.◌∷◌ options.job_id held

unfoldable pub enqueue_jobs : (ℕ → String) → SlotUnit → ℕ → List String → List String → List String
unfolding add_job scheduled_job_options
enqueue_jobs to_iso_string unit at List.[] held = held
enqueue_jobs to_iso_string unit at (List.◌∷◌ name rest) held =
    enqueue_jobs to_iso_string unit at rest
      (add_job (scheduled_job_options to_iso_string name unit at) held)

unfoldable pub enqueue_scheduled : (ℕ → String) → Schedule → ℕ → List String → List String
unfolding enqueue_jobs
enqueue_scheduled to_iso_string schedule at held =
    enqueue_jobs to_iso_string schedule.unit at schedule.jobs held
