-- ===== src/Commands/Request.antt =====
-- validateCommandRequest and resolveControlPath of cmd/miniav/transport.go.
use mini_av.Prelude.{
  ℕ, String, Option, none, some, [], ◌∷◌, not, if◌then◌else◌, nat_beq, length, any,
}
use mini_av.Prelude.Equality.{string_eq}
use mini_av.Prelude.Table.{Table, lookup}
use mini_av.Prelude.Text.{is_blank}
use mini_av.Config.{Files}
use mini_av.Commands.{CommandRequest}

pub data RequestError : Type 0 where
  unknown_command blank_argument : String → RequestError
  wrong_count : String → ℕ → ℕ → RequestError

abbrev pub wanted_arguments : Table String ℕ
wanted_arguments =
    ("scan", 1) ∷ ("status", 0) ∷ ("reload", 2) ∷ ("update", 1) ∷ ("shutdown", 0) ∷ []

-- `none` for nil.
unfoldable pub validate_command_request : CommandRequest → Option RequestError
unfolding lookup any is_blank
validate_command_request r = elim (lookup r.command wanted_arguments) [
  | none ↦ some (RequestError.unknown_command r.command)
  | some wanted ↦
      if not (nat_beq (length r.args) wanted)
      then some (RequestError.wrong_count r.command (length r.args) wanted)
      else if any is_blank r.args
      then some (RequestError.blank_argument r.command)
      else none
]

unfoldable pub resolve_control_path : Files → String → String → String
resolve_control_path files base path = if files.is_abs path then path else files.join base path
