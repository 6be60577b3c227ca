-- ===== src/Activity.antt =====
-- `logActivity` and `generateDefaultDescription` of src/services/system.service.ts. Every caller
-- gives its action in capitals, which toUpperCase keeps. The old and new values of an entry are
-- not columns that any modelled code reads.
use Prim.Native.String
use express_core.Base.{◌∷◌, Option, none, some, ℕ, String, List, ◌≡◌, refl, ◌==ₛ◌, if◌then◌else◌}
use express_core.Store.{ActivityLog, Db}
use express_core.Store.Exec.{Tx, ok}

unfoldable pub default_description : String → String → String
default_description action subject_type =
    if action ==ₛ "CREATE"
    then String.◌++◌ "Create new data " subject_type
    else if action ==ₛ "UPDATE"
    then String.◌++◌ "Update data " subject_type
    else if action ==ₛ "DELETE"
    then String.◌++◌ "Delete data " subject_type
    else if action ==ₛ "APPROVE"
    then String.◌++◌ "Approve data " subject_type
    else if action ==ₛ "REJECT"
    then String.◌++◌ "Reject data " subject_type
    else String.◌++◌ "Perform action " (String.◌++◌ action (String.◌++◌ " on " subject_type))

-- `description || generateDefaultDescription(…)`
abbrev final_description : String → String → Option String → String
final_description action subject_type none = default_description action subject_type
final_description action subject_type (some d) =
    if d ==ₛ "" then default_description action subject_type else d

-- Both ids are required columns: without a value the client refuses the row, and logActivity
-- catches its error.
unfoldable pub log_activity : Option ℕ → String → String → Option ℕ → Option String → Tx (Unit {0})
log_activity none action subject_type subject_id description s = ok (tt, s)
log_activity (some user_id) action subject_type none description s = ok (tt, s)
log_activity (some user_id) action subject_type (some subject_id) description s = ok (
  tt,
  record s {
    activity_logs =
        (record {
          user_id = some user_id;
          action = action;
          subject_type = subject_type;
          subject_id = some subject_id;
          description = final_description action subject_type description;
        })
        ∷ s.activity_logs;
  },
)

-- An audit entry is written or given up: the rest of the database stays.
pub log_activity_rest :
    (by : Option ℕ) (action subject_type : String) (id : ℕ) (description : Option String) (s : Db)
    → (logs : List ActivityLog) × (log_activity by action subject_type (some id) description s
        ≡ ok (tt, record s { activity_logs = logs }))
unfolding log_activity
log_activity_rest none action subject_type id description s = (s.activity_logs, refl)
log_activity_rest (some by) action subject_type id description s = (_, refl)
