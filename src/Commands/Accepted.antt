-- ===== src/Commands/Accepted.antt =====
-- The requests of the command line (cmd/miniav/cli.go), and those that Core accepts
-- (cmd/miniav/transport.go).
use mini_av.Prelude.{
  String, none, List, [], ◌∷◌, ◌≡◌, ◌↔◌, refl, false, ◌||◌, ◌>>=◌, if◌then◌else◌, Result, ok, err,
  arith, any, inl, inr, Bool-cases, subst, if_cases,
}
use mini_av.Prelude.Equality.{◌==◌, string_eq, ==→≡}
use mini_av.Prelude.Table.{lookup}
use mini_av.Prelude.Text.{is_blank}
use mini_av.Commands.{CommandRequest}
use mini_av.Commands.Request.{validate_command_request}
use mini_av.Commands.Cli.{
  Invocation, UsageError, ParseFlags, request_invocation, required_flag, scan_invocation,
  status_invocation, reload_invocation, update_invocation, shutdown_invocation, parse_invocation,
}

-- What the documentation of the package flag says of the flag of `update`, which is not Boolean:
-- `--manifest value` sets it.
pub record IsFlags (parse_flags : ParseFlags) : Type 0 where
  pub sets : (value : String) → parse_flags "manifest" ("--manifest" ∷ value ∷ []) ≡ ok (value, [])

-- The arguments of the program for a request.
unfoldable pub words : CommandRequest → List String
words r = if r.command == "update" then "update" ∷ "--manifest" ∷ r.args else r.command ∷ r.args

-- By the entries of the table of wanted arguments.
pub valid_command {ℓ} :
    (c : String) (args : List String)
    → validate_command_request (record { command = c; args = args }) ≡ none
    → (P : String → Type ℓ) → P "scan"
    → P "status"
    → P "reload"
    → P "update"
    → P "shutdown"
    → P c
unfolding validate_command_request lookup
valid_command c args e P scan status reload update shutdown = elim (Bool-cases ("scan" == c)) [
  | inl b ↦ subst P (==→≡ "scan" c b) scan
  | inr b1 ↦ elim (Bool-cases ("status" == c)) [
    | inl b ↦ subst P (==→≡ "status" c b) status
    | inr b2 ↦ elim (Bool-cases ("reload" == c)) [
      | inl b ↦ subst P (==→≡ "reload" c b) reload
      | inr b3 ↦ elim (Bool-cases ("update" == c)) [
        | inl b ↦ subst P (==→≡ "update" c b) update
        | inr b4 ↦ elim (Bool-cases ("shutdown" == c)) [
          | inl b ↦ subst P (==→≡ "shutdown" c b) shutdown
          | inr b5 ↦ absurd (ground arith)
        ]
      ]
    ]
  ]
]

module _ (parse_flags : ParseFlags) where
  abbrev Allows : Result UsageError Invocation → Type 0
  Allows (err e) = Unit {0}
  Allows (ok i) = i.serve ≡ false → validate_command_request i.request ≡ none

  scan-Allows : (rest : List String) → Allows (scan_invocation parse_flags rest)
  unfolding validate_command_request request_invocation lookup any
  scan-Allows [] = tt
  scan-Allows (path ∷ []) = if_cases Allows (is_blank path) _ _ (λ b. tt) λ b e. ground arith
  scan-Allows (path ∷ x ∷ rest) = tt

  status-Allows : (rest : List String) → Allows (status_invocation parse_flags rest)
  unfolding validate_command_request request_invocation lookup any
  status-Allows [] = λ e. refl
  status-Allows (x ∷ rest) = tt

  shutdown-Allows : (rest : List String) → Allows (shutdown_invocation parse_flags rest)
  unfolding validate_command_request request_invocation lookup any
  shutdown-Allows [] = λ e. refl
  shutdown-Allows (x ∷ rest) = tt

  reload-Allows : (rest : List String) → Allows (reload_invocation parse_flags rest)
  unfolding validate_command_request request_invocation lookup any
  reload-Allows [] = tt
  reload-Allows (scanner_id ∷ []) = tt
  reload-Allows (scanner_id ∷ path ∷ []) =
      if_cases Allows (is_blank scanner_id || is_blank path) _ _ (λ b. tt) λ b e. ground arith
  reload-Allows (scanner_id ∷ path ∷ x ∷ rest) = tt

  bind-Allows :
      (m : Result UsageError String) (f : String → Result UsageError Invocation)
      → ((v : String) → m ≡ ok v → Allows (f v))
      → Allows (m >>= f)
  bind-Allows (ok v) f h = h v refl
  bind-Allows (err e) f h = tt

  required_flag-blank :
      (args : List String) (name command v : String)
      → required_flag parse_flags args name command ≡ ok v
      → is_blank v ≡ false
  unfolding required_flag
  required_flag-blank args name command v e = ground arith

  update-Allows : (rest : List String) → Allows (update_invocation parse_flags rest)
  unfolding validate_command_request request_invocation lookup any
  update-Allows rest =
      bind-Allows (required_flag parse_flags rest "manifest" "update") _
        λ v e b. let filled = required_flag-blank rest "manifest" "update" v e in ground arith

  parse_invocation-Allows : (args : List String) → Allows (parse_invocation parse_flags args)
  unfolding parse_invocation
  parse_invocation-Allows [] = tt
  parse_invocation-Allows (command ∷ rest) =
      if_cases Allows (command == "serve") _ _
        (λ e.
          bind-Allows (required_flag parse_flags rest "config" "serve") _
            λ v e b. absurd (ground arith))
        λ e.
          if_cases Allows (command == "scan") _ _ (λ e. scan-Allows rest)
            λ e.
              if_cases Allows (command == "status") _ _ (λ e. status-Allows rest)
                λ e.
                  if_cases Allows (command == "reload") _ _ (λ e. reload-Allows rest)
                    λ e.
                      if_cases Allows (command == "update") _ _ (λ e. update-Allows rest)
                        λ e.
                          if_cases Allows (command == "shutdown") _ _ (λ e. shutdown-Allows rest)
                            λ e. tt

  abbrev Made : String → Type 0
  Made c =
      (args : List String)
      → validate_command_request (record { command = c; args = args }) ≡ none
      → parse_invocation parse_flags (words (record { command = c; args = args }))
        ≡ ok (request_invocation c args)

  scan-Made : Made "scan"
  unfolding words parse_invocation validate_command_request lookup any
  scan-Made [] e = absurd (ground arith)
  scan-Made (path ∷ []) e = ground arith
  scan-Made (path ∷ x ∷ rest) e = absurd (ground arith)

  status-Made : Made "status"
  unfolding words parse_invocation validate_command_request lookup any
  status-Made [] e = refl
  status-Made (x ∷ rest) e = absurd (ground arith)

  shutdown-Made : Made "shutdown"
  unfolding words parse_invocation validate_command_request lookup any
  shutdown-Made [] e = refl
  shutdown-Made (x ∷ rest) e = absurd (ground arith)

  reload-Made : Made "reload"
  unfolding words parse_invocation validate_command_request lookup any
  reload-Made [] e = absurd (ground arith)
  reload-Made (scanner_id ∷ []) e = absurd (ground arith)
  reload-Made (scanner_id ∷ path ∷ []) e = ground arith
  reload-Made (scanner_id ∷ path ∷ x ∷ rest) e = absurd (ground arith)

  module _ (law : IsFlags parse_flags) where
    update-Made : Made "update"
    unfolding words parse_invocation validate_command_request required_flag lookup any
    update-Made [] e = absurd (ground arith)
    update-Made (source ∷ []) e =
        let sets : parse_flags "manifest" ("--manifest" ∷ source ∷ []) ≡ ok (source, []) =
          law.sets source in
        ground (arith, sets)
    update-Made (source ∷ x ∷ rest) e = absurd (ground arith)

    any-Made : (c : String) → Made c
    any-Made c args e =
        valid_command c args e Made scan-Made status-Made reload-Made update-Made shutdown-Made args
          e

  -- With a package flag that keeps its documentation for `--manifest value`, Core accepts a request
  -- exactly if the command line makes it of some arguments.
  pub parse_invocation-accepts :
      (law : IsFlags parse_flags) (r : CommandRequest)
      → (validate_command_request r ≡ none) ↔ (
          (args : List String) × (parse_invocation parse_flags args
            ≡ ok (request_invocation r.command r.args)))
  unfolding request_invocation
  parse_invocation-accepts law r = (
    λ e. (words r, any-Made law r.command r.args e),
    λ (args, e). subst Allows e (parse_invocation-Allows args) refl,
  )
