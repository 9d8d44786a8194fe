-- ===== src/Prelude/Addresses.antt =====
-- What the packages net and net/netip make of an address.
use Prim.Native.String.{String}
use mathlib.Core.Bool.{Bool, false}
use mathlib.Core.Option.{Option, none, some}
use mini_av.Prelude.Tests.{Result}

-- SplitHostPort, and IsLoopback of what ParseAddr returns, `none` for its error.
pub record Addresses : Type 0 where
  pub split_host_port : String → Result String (String × String)
  pub is_loopback : String → Option Bool

-- err == nil && ip.IsLoopback()
abbrev pub loopback_host : Addresses → String → Bool
loopback_host addresses host = elim (addresses.is_loopback host) [ none ↦ false | some b ↦ b ]
