-- ===== src/Failures.antt =====
-- src/middleware/error.middleware.ts: the answer to a request that failed.
-- A thrown value: a MulterError's code, `statusCode`, `message`, `stack` and `errors`, where an
-- absent, empty or zero one counts as none.
use express_core.Base.{
  Bool, ℕ, String, Option, if◌then◌else◌, false, List, ◌||◌, ◌≡◌, ltb, none, or_else, true, ◌⊎◌,
  some, ◌==ₛ◌, Bool-cases, inl, inr, refl, ◌<◌, ltb→lt, ◌∙◌, ap,
}

pub record Failure : Type 0 where
  pub is_app_error : Bool
  pub multer_code : Option String
  pub status_code : Option ℕ
  pub message : Option String
  pub stack : Option String
  pub errors : Option (List String)

pub record Answer : Type 0 where
  pub status : ℕ
  pub message : String
  pub stack : Option String
  pub errors : Option (List String)

unfoldable pub status_of : Failure → ℕ
status_of x = elim x.multer_code [
  | none ↦ or_else x.status_code 500
  | some code ↦ if code ==ₛ "LIMIT_FILE_SIZE" then 413 else 400
]

abbrev pub internal : String
internal = "Internal Server Error"

unfoldable pub error_handler : Bool → Failure → Answer
error_handler is_dev x =
    let status = status_of x in
    record {
      status = status;
      message =
          if x.is_app_error || (ltb status 500 || is_dev)
          then or_else x.message internal
          else internal;
      stack = if is_dev then x.stack else none;
      errors = if ltb status 500 || is_dev then x.errors else none;
    }

-- The answer outside development, by what it is made from.
reply : Bool → ℕ → Option String → Option (List String) → Answer
reply is_app_error status message errors = record {
  status = status;
  message =
      if is_app_error || (ltb status 500 || false) then or_else message internal else internal;
  stack = none;
  errors = if ltb status 500 || false then errors else none;
}

reply-same :
    (is_app_error : Bool) (status : ℕ) (m m' : Option String) (l l' : Option (List String))
    → ((is_app_error ≡ true) ⊎ (status < 500) → m ≡ m')
    → (status < 500 → l ≡ l')
    → reply is_app_error status m l ≡ reply is_app_error status m' l'
unfolding reply
reply-same is_app_error status m m' l l' message errors = elim (Bool-cases (ltb status 500)) [
  | inl small ↦ let below = ltb→lt _ _ small in rw (message (inr below), errors below) refl
  | inr large ↦ by_kind is_app_error message large
]
  where
    by_kind :
        (b : Bool)
        → ((b ≡ true) ⊎ (status < 500) → m ≡ m')
        → ltb status 500 ≡ false
        → reply b status m l ≡ reply b status m' l'
    by_kind true message large = rw (message (inl refl), large) refl
    by_kind false message large = rw large refl

-- Outside development, two failures get the same answer when they agree on the status, on being an
-- AppError, on the message if they are AppErrors or have a status below 500, and on the field
-- errors if the status is below 500; nothing else of a failure reaches the answer.
pub error_handler-hides :
    (x y : Failure)
    → status_of x ≡ status_of y
    → x.is_app_error ≡ y.is_app_error
    → ((x.is_app_error ≡ true) ⊎ (status_of x < 500) → x.message ≡ y.message)
    → (status_of x < 500 → x.errors ≡ y.errors)
    → error_handler false x ≡ error_handler false y
unfolding error_handler reply
error_handler-hides x y status app message errors =
    reply-same x.is_app_error (status_of x) x.message y.message x.errors y.errors message errors
    ∙ ap (λ b. reply b (status_of x) y.message y.errors) app
    ∙ ap (λ n. reply y.is_app_error n y.message y.errors) status
