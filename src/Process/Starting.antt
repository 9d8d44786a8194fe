-- ===== src/Process/Starting.antt =====
-- Start of pkg/process/process.go, with the goroutine that waits for the child, and the methods
-- that read a Child. What the operating system answers is any function of the calls before.
use mini_av.Prelude.Int.{ℤ}
use mini_av.Prelude.Actions
use mini_av.Prelude.Actions.{◌>>=◌, ◌>>◌, refuse_when}
use mini_av.Prelude.{ℕ, String, Option, none, some, List, ◌∷◌, false, Result, ok, err}
use mini_av.Prelude.Text.{is_blank}
use mini_av.Process.{Child, Exit, KillError}

pub data Call : Type 0 where
  open_stdin open_stdout close_stdin close_stdout : Call
  spawn : String → List String → Call

abbrev pub History : Type 0
History = List Call

-- A process that runs: its id, and what it answers to Kill.
pub record Started : Type 0 where
  pub pid : ℕ
  pub kill : Option KillError

pub record Env : Type 0 where
  pub stdin_pipe : History → Option String
  pub stdout_pipe : History → Option String
  pub start : History → String → List String → Result String Started

pub data StartError : Type 0 where
  empty_executable : StartError
  stdin_failed stdout_failed start_failed : String → StartError

abbrev pub Action : Type 0 → Type 0
Action A = Actions.Action Call StartError A

abbrev pub new_child : Started → Child
new_child s = record { pid = s.pid; kill = s.kill; terminated = false; terminate_err = none }

module _ (env : Env) where
  abbrev stdin_pipe : Action (Unit {0})
  stdin_pipe h = elim (env.stdin_pipe h) [
    | some e ↦ (err (StartError.stdin_failed e), Call.open_stdin ∷ h)
    | none ↦ (ok tt, Call.open_stdin ∷ h)
  ]

  abbrev stdout_pipe : Action (Unit {0})
  stdout_pipe h = elim (env.stdout_pipe h) [
    | some e ↦ (err (StartError.stdout_failed e), Call.close_stdin ∷ Call.open_stdout ∷ h)
    | none ↦ (ok tt, Call.open_stdout ∷ h)
  ]

  abbrev start_command : String → List String → Action Child
  start_command executable args h = elim (env.start h executable args) [
    | err e ↦ (
      err (StartError.start_failed e),
      Call.close_stdout ∷ Call.close_stdin ∷ Call.spawn executable args ∷ h,
    )
    | ok s ↦ (ok (new_child s), Call.spawn executable args ∷ h)
  ]

  unfoldable pub start : String → List String → Action Child
  unfolding is_blank
  start executable args = do
    refuse_when (is_blank executable) StartError.empty_executable
    stdin_pipe
    stdout_pipe
    start_command executable args

-- What the goroutine sends on `exited`, from what Wait returns and the exit code.
unfoldable pub exit_of : Child → Option String → ℤ → Exit
exit_of c error code = record { pid = c.pid; code = code; err = error }
