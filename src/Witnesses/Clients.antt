-- ===== src/Witnesses/Clients.antt =====
-- Core's start of a worker, whose health check fails.
use mini_av.Prelude.{◌≡◌, refl, Option, none, some, [], ◌∷◌, true, false, ok}
use mini_av.Prelude.Actions.{Await}
use mini_av.Prelude.Int.{ℤ}
use mini_av.Config.{Worker}
use mini_av.Process.{Child}
use mini_av.Runtime.State.{RuntimeError}
use mini_av.Runtime.Loop.{Event}
use mini_av.Runtime.Clients.{Call, History, Ready, Env, wait_runtime_reply}
use mini_av.Runtime.Clients.Starting.{
  Shown, worker_key, worker_args, connect_worker, hello, health, activate, fail_candidate, register,
  introduce, start_worker,
}
use mini_av.Coordinator.State.{key_eq, key_beq}
use mini_av.Runtime.Clients.Owned.{owned, nothing}
use mini_av.Runtime.Clients.Settled.{IsSettled, start_worker-IsSettled}
use mini_av.Prelude.Equality.{string_eq}
use mini_av.Worker.Main.{Numbers, default_flags, parse_flags}
use mini_av.Worker.Flags.{flags_of, parse_flags-worker_args}

abbrev slow_worker : Worker
slow_worker = record {
  scanner_id = "scanner-b";
  worker_version = "1.0.0";
  transport = "socket";
  executable = "/opt/scanner-b";
  signature_path = "/etc/signatures";
  delay_ms = ℤ.pos 20;
  crash_on_scan = false;
  fail_health = true;
}

abbrev child : Child
child = record { pid = 9; kill = none; terminated = false; terminate_err = none }

-- The health check is the only command that is not answered with nil.
abbrev answer_to : History → Await (Option RuntimeError)
answer_to (Call.sent ctx (Event.health k reply) ∷ h) =
    Await.answered (some (RuntimeError.unhealthy "fault injection"))
answer_to h = Await.answered none

abbrev strict_env : Env
strict_env = record {
  abs = λ h path. ok path;
  stat = λ h path. ok true;
  start = λ h executable args. ok child;
  ready = λ h. Ready.received (ok "127.0.0.1:4000");
  dial = λ h mode address. ok tt;
  accept = λ h. Await.answered tt;
  reply_error = answer_to;
  reply_scan = λ h. Await.stopped;
  reply_reload = λ h. Await.stopped;
  reply_active = λ h. Await.stopped;
  reply_snapshot = λ h. Await.stopped;
}

abbrev shown : Shown
shown = record { delay = λ n. "20"; error = λ e. "worker is unhealthy" }

abbrev numbers : Numbers
numbers = record { parse_int = λ s. some (ℤ.pos 20); parse_bool = λ s. some true }

initially : owned strict_env (worker_key slow_worker) [] ≡ nothing
unfolding owned
initially = refl

start_worker-IsSettled_example :
    IsSettled strict_env (worker_key slow_worker) (start_worker strict_env shown slow_worker [])
start_worker-IsSettled_example = start_worker-IsSettled strict_env shown slow_worker [] initially

-- The loop was told to fail the worker, which it had taken.
slow_worker-told :
    owned strict_env (worker_key slow_worker) (start_worker strict_env shown slow_worker []).1
    ≡ record nothing { registered = true; greeted = true; told_to_fail = true }
unfolding owned key_beq start_worker worker_args connect_worker register introduce hello health
    activate fail_candidate wait_runtime_reply
slow_worker-told = refl

parse_flags-worker_args_example :
    parse_flags numbers (worker_args shown slow_worker) default_flags
    ≡ ok (flags_of slow_worker, [])
parse_flags-worker_args_example = parse_flags-worker_args shown numbers slow_worker refl
