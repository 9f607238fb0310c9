-- ===== src/Prelude/Environment.antt =====
-- How the configuration reads a secret from the variables of the environment.
use Prim.Native.String.{String}
use mathlib.Core.Bool.{Bool}
use mathlib.Core.Option.{Option, none, some}
use clutch.Prelude.Tests.{if◌then◌else◌}
use clutch.Prelude.Text.{trim, is_empty}

-- `??` between two variables of the environment.
abbrev pub otherwise : Option String → Option String → Option String
otherwise (some s) o = some s
otherwise none o = o

abbrev pub trimmed : Option String → Option String
trimmed none = none
trimmed (some s) = some (trim s)

abbrev pub absent_secret : Bool → String → Option String
absent_secret production default = if production then none else some default

-- The configured secret; where it is absent or empty the default, but an error (`none`) in production.
abbrev pub secret_or_default : Bool → String → Option String → Option String
secret_or_default production default none = absent_secret production default
secret_or_default production default (some s) =
    if is_empty s then absent_secret production default else some s
