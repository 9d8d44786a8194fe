-- ===== src/Worker/Flags.antt =====
-- The flags that StartWorker of pkg/coordinator/runtime.go passes to a worker, as Main of
-- pkg/worker/main.go reads them.
use mini_av.Prelude.{
  String, some, List, [], ◌∷◌, ◌++◌, ◌≡◌, refl, Bool, true, false, ok, if◌then◌else◌, arith, ap,
  sym, subst, nat_beq_iff,
}
use mini_av.Config.{Worker}
use mini_av.Prelude.Equality.{◌==◌, string_eq}
use mini_av.Prelude.Int.{ℤ, is_zero}
use mini_av.Prelude.Table.{lookup}
use mini_av.Runtime.Clients.Starting.{Shown, worker_args}
use mini_av.Worker.Main.{
  WorkerFlags, Numbers, default_flags, read_argument, named, split_equals, set_flag, parse_flags,
}

abbrev pub flags_of : Worker → WorkerFlags
flags_of w = record default_flags {
  worker_version = w.worker_version;
  signatures = w.signature_path;
  delay = w.delay_ms;
  crash_on_scan = w.crash_on_scan;
  fail_health = w.fail_health;
}

is_zero-zero : (n : ℤ) → is_zero n ≡ true → n ≡ ℤ.pos 0
is_zero-zero (ℤ.pos n) e = ap ℤ.pos ((nat_beq_iff n 0).0 e)
is_zero-zero (ℤ.negsuc n) e = absurd (ground arith)

-- The two flags at the end.
last_flags :
    (numbers : Numbers) (crash fail : Bool) (version path listen : String) (delay : ℤ)
    → parse_flags numbers
        ((if crash then "-crash-on-scan" ∷ [] else [])
          ++ (if fail then "-fail-health" ∷ [] else []))
        (record {
          worker_version = version;
          signatures = path;
          delay = delay;
          crash_on_scan = false;
          fail_health = false;
          listen = listen;
        })
      ≡ ok (
        record {
          worker_version = version;
          signatures = path;
          delay = delay;
          crash_on_scan = crash;
          fail_health = fail;
          listen = listen;
        },
        [],
      )
unfolding parse_flags read_argument named split_equals lookup
last_flags numbers true true version path listen delay = refl
last_flags numbers true false version path listen delay = refl
last_flags numbers false true version path listen delay = refl
last_flags numbers false false version path listen delay = refl

module _ (shown : Shown) (numbers : Numbers) where
  abbrev more_flags : Bool → Worker → List String
  more_flags zero w =
      (if zero then [] else "-delay" ∷ shown.delay w.delay_ms ∷ [])
      ++ ((if w.crash_on_scan then "-crash-on-scan" ∷ [] else [])
          ++ (if w.fail_health then "-fail-health" ∷ [] else []))

  delay_flags :
      (zero : Bool) (w : Worker)
      → numbers.parse_int (shown.delay w.delay_ms) ≡ some w.delay_ms
      → is_zero w.delay_ms ≡ zero
      → parse_flags numbers (more_flags zero w) (record default_flags {
        worker_version = w.worker_version;
        signatures = w.signature_path;
      })
        ≡ ok (flags_of w, [])
  unfolding parse_flags set_flag read_argument named split_equals lookup
  delay_flags true w reads e =
      subst
        (λ n.
          parse_flags numbers (more_flags true w) (record default_flags {
            worker_version = w.worker_version;
            signatures = w.signature_path;
          })
          ≡ ok (record (flags_of w) { delay = n }, []))
        (sym (is_zero-zero w.delay_ms e))
        (last_flags numbers w.crash_on_scan w.fail_health w.worker_version w.signature_path
          "127.0.0.1:0" (ℤ.pos 0))
  delay_flags false w reads e = rw reads (
      last_flags numbers w.crash_on_scan w.fail_health w.worker_version w.signature_path
        "127.0.0.1:0" w.delay_ms)

  listen_flags :
      (stdio : Bool) (w : Worker)
      → numbers.parse_int (shown.delay w.delay_ms) ≡ some w.delay_ms
      → parse_flags numbers
          ("-worker-version"
            ∷ w.worker_version
            ∷ "-signatures"
            ∷ w.signature_path
            ∷ ((if stdio then [] else "-listen" ∷ "127.0.0.1:0" ∷ [])
                ++ more_flags (is_zero w.delay_ms) w))
          default_flags
        ≡ ok (flags_of w, [])
  unfolding parse_flags set_flag read_argument named split_equals lookup
  listen_flags true w reads = delay_flags (is_zero w.delay_ms) w reads refl
  listen_flags false w reads = delay_flags (is_zero w.delay_ms) w reads refl

  -- If strconv reads what fmt has written of the worker's delay, the program that StartWorker starts
  -- takes from its flags the version, the signature file, the delay and the injected faults of the
  -- worker's configuration, and no argument is left.
  pub parse_flags-worker_args :
      (w : Worker)
      → numbers.parse_int (shown.delay w.delay_ms) ≡ some w.delay_ms
      → parse_flags numbers (worker_args shown w) default_flags ≡ ok (flags_of w, [])
  unfolding worker_args
  parse_flags-worker_args w reads = listen_flags (w.transport == "stdio") w reads
