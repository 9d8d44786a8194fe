-- ===== src/Process.antt =====
-- pkg/process/process.go: a child process as the coordinator sees it. What the operating system
-- answers to the kill is a field of the child, and so is what Terminate keeps of it.
pub mod Starting
use mini_av.Prelude.Int.{ℤ}
use mini_av.Prelude.{ℕ, String, Option, none, some, Bool, true, if◌then◌else◌}

-- os.ErrProcessDone, or another error of `Process.Kill`.
pub data KillError : Type 0 where
  process_done : KillError
  kill_failed : String → KillError

-- `code` is -1 for a child that a signal ended.
pub record Exit : Type 0 where
  pub pid : ℕ
  pub code : ℤ
  pub err : Option String

-- `kill` is what the process answers to Kill; `terminated` is the sync.Once.
pub record Child : Type 0 where
  pub pid : ℕ
  pub kill : Option KillError
  pub terminated : Bool
  pub terminate_err : Option KillError

abbrev ignore_done : Option KillError → Option KillError
ignore_done (some KillError.process_done) = none
ignore_done other = other

unfoldable pub terminate : Child → Child × Option KillError
terminate c =
    let answer = ignore_done c.kill in
    if c.terminated
    then (c, c.terminate_err)
    else (record c { terminated = true; terminate_err = answer }, answer)
