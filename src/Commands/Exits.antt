-- ===== src/Commands/Exits.antt =====
-- What the exit code of an invocation says.
use headnet.Base.{◌≡◌, Option, none, some, List}
use headnet.Text.{Text}
use headnet.Commands.{
  Commands, Command, info, Packages, CommandError, exit_error, other_error, Exec, Streams, exit_ok,
  parsed, help_asked,
}
use headnet.Commands.Running.{flag_set, to_out}
use headnet.Commands.Help.{write_help}

-- The error of a command leaves the exit code 0.
abbrev pub IsFine : Option CommandError → Type 0
IsFine none = Unit
IsFine (some (exit_error code text)) = code ≡ exit_ok
IsFine (some (other_error text)) = ⊥

-- The command has an Exec, and it succeeded on the arguments that the flags left.
abbrev pub Succeeds : Packages → Command → List Text → Streams → Type 0
Succeeds p cmd args io =
    (exec : Exec) × (values : List (Text × Text)) × (left : List Text) × ((info cmd).exec
      ≡ some exec)
    × (p.parse (flag_set (info cmd).set_flags) args ≡ parsed values left)
    × IsFine (exec values left io).0

-- The help of the command was asked for, and is what was written.
abbrev pub ShowsHelp : Packages → Command → List Text → Text → Streams → Streams → Type 0
ShowsHelp p cmd args path io after =
    (p.parse (flag_set (info cmd).set_flags) args ≡ help_asked)
    × (after ≡ to_out (write_help p cmd path) io)
