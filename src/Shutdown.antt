-- ===== src/Shutdown.antt =====
-- src/utils/graceful-shutdown.ts: the close steps of a process, and its signals. A step answers with
-- an error or none; the timer that forces the exit is left to the environment.
use express_core.Base.{
  ℕ, String, Bool, true, false, Option, none, some, List, [], ◌∷◌, ◌++◌, is_some, ◌≡◌, refl, ap,
  ◌∙◌, if◌then◌else◌, ◌||◌, arith, map,
}

pub record ShutdownStep : Type 0 where
  pub name : String
  pub error : Option String

-- The steps that have run, the latest last, and the code so far.
abbrev run_step : ShutdownStep → ℕ → ℕ
run_step step exit_code = if is_some step.error then 1 else exit_code

unfoldable pub run_steps : List ShutdownStep → ℕ → List String × ℕ
run_steps [] exit_code = ([], exit_code)
run_steps (step ∷ rest) exit_code =
    let later = run_steps rest (run_step step exit_code) in (step.name ∷ later.0, later.1)

-- `running`: the code that the first call resolves with, once there was a call. `ran` lists the
-- steps that were run.
pub record State : Type 0 where
  pub running : Option ℕ
  pub ran : List String

abbrev fatal_code : Bool → ℕ
fatal_code true = 1
fatal_code false = 0

unfoldable pub shutdown : List ShutdownStep → Bool → State → ℕ × State
unfolding run_steps
shutdown steps fatal s = elim s.running [
  | some exit_code ↦ (exit_code, s)
  | none ↦
      let done = run_steps steps (fatal_code fatal) in
      (done.1, record { running = some done.1; ran = s.ran ++ done.0 })
]

-- What the handlers of installProcessHandlers pass on.
pub data Signal : Type 0 where
  sigint sigterm uncaught_exception unhandled_rejection : Signal

abbrev pub is_fatal : Signal → Bool
is_fatal sigint = false
is_fatal sigterm = false
is_fatal uncaught_exception = true
is_fatal unhandled_rejection = true

-- Any number of signals: the exit code that the last one leaves.
unfoldable pub handle_signals :
    List ShutdownStep → List Signal → Option ℕ → State → Option ℕ × State
unfolding shutdown
handle_signals steps [] exit_code s = (exit_code, s)
handle_signals steps (x ∷ rest) exit_code s =
    let done = shutdown steps (is_fatal x) s in handle_signals steps rest (some done.0) done.1

abbrev any_failed : List ShutdownStep → Bool
any_failed [] = false
any_failed (step ∷ rest) = is_some step.error || any_failed rest

abbrev names : List ShutdownStep → List String
names steps = map (λ (step : ShutdownStep). step.name) steps

run_steps_lem :
    (steps : List ShutdownStep) (exit_code : ℕ)
    → run_steps steps exit_code ≡ (names steps, (if any_failed steps then 1 else exit_code))
unfolding run_steps
run_steps_lem [] exit_code = refl
run_steps_lem (step ∷ rest) exit_code = ground (arith, run_steps_lem rest (run_step step exit_code))

-- Later signals change nothing.
handle_signals-settled :
    (steps : List ShutdownStep) (signals : List Signal) (code : ℕ) (ran : List String)
    → handle_signals steps signals (some code) (record { running = some code; ran = ran })
      ≡ (some code, record { running = some code; ran = ran })
unfolding handle_signals shutdown
handle_signals-settled steps [] code ran = refl
handle_signals-settled steps (x ∷ rest) code ran = handle_signals-settled steps rest code ran

-- However many signals come, every close step runs once and in order, also after a step that
-- failed, and the exit code is 1 when the first signal is fatal or a step failed, and 0 otherwise.
pub handle_signals_lem :
    (steps : List ShutdownStep) (x : Signal) (rest : List Signal)
    → handle_signals steps (x ∷ rest) none (record { running = none; ran = [] }) ≡ (
      some (if any_failed steps || is_fatal x then 1 else 0),
      record {
        running = some (if any_failed steps || is_fatal x then 1 else 0);
        ran = names steps;
      },
    )
unfolding handle_signals shutdown
handle_signals_lem steps x rest =
    handle_signals-settled steps rest _ _
    ∙ ap (λ (r : List String × ℕ). (some r.1, record { running = some r.1; ran = r.0 }))
        (run_steps_lem steps (fatal_code (is_fatal x))
          ∙ ap (λ n. (names steps, n)) (codes (any_failed steps) (is_fatal x)))
  where
    codes : (a b : Bool) → (if a then 1 else fatal_code b) ≡ (if a || b then 1 else 0)
    codes true b = refl
    codes false true = refl
    codes false false = refl
