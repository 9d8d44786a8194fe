-- ===== src/Commands.antt =====
-- cmd/miniav: the command line and the control connection between it and Core. The packages flag,
-- fmt, encoding/json, net and path/filepath are parameters.
pub mod Request
pub mod Cli
pub mod Texts
pub mod Dispatch
pub mod Accepted
pub mod Served
pub mod Connection
pub mod Exchange
pub mod Serving
pub mod Stopped
use mini_av.Prelude.{String, List, [], Bool, false}

-- A nil slice of arguments and an empty one are the same: the code asks for its length only.
pub record CommandRequest : Type 0 where
  pub command : String
  pub args : List String

pub record CommandResponse : Type 0 where
  pub success : Bool
  pub output : String
  pub error : String
  pub shutdown : Bool

abbrev pub no_request : CommandRequest
no_request = record { command = ""; args = [] }

abbrev pub no_response : CommandResponse
no_response = record { success = false; output = ""; error = ""; shutdown = false }
