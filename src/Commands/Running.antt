-- ===== src/Commands/Running.antt =====
-- Run: the flags, the command's Exec and the exit code.
use headnet.Base.{Option, none, some, List, [], ◌++◌}
use headnet.Base.Int.{ℤ}
use headnet.Text.{Text, codes}
use headnet.Commands.Help.{write_help}
use headnet.Commands.{
  Command, Commands, no_more, also, subcommands, info, Flag, Packages, Parsed, parsed, help_asked,
  bad_flags, Streams, CommandError, exit_error, other_error, Exec, exit_ok, exit_failure,
  exit_usage, Resolved, found, unknown, resolve,
}

abbrev pub to_out : Text → Streams → Streams
to_out t io = record io { out = io.out ++ t }

abbrev pub to_err : Text → Streams → Streams
to_err t io = record io { err_out = io.err_out ++ t }

-- What Run does with the result of Exec.
unfoldable pub conclude : Text → Option CommandError → Streams → ℤ × Streams
conclude path none io = (exit_ok, io)
conclude path (some (exit_error code none)) io = (code, io)
conclude path (some (exit_error code (some text))) io =
    (code, to_err (path ++ codes ": " ++ text ++ codes "\n") io)
conclude path (some (other_error text)) io =
    (exit_failure, to_err (path ++ codes ": " ++ text ++ codes "\n") io)

-- The exit code of a command without Exec.
abbrev pub group_code : Commands → ℤ
group_code no_more = exit_failure
group_code (also c rest) = exit_usage

-- Run once the flags have values, with the command's Exec.
unfoldable pub run_exec :
    Packages → Command → Text → List (Text × Text) → List Text → Option Exec → Streams → ℤ × Streams
unfolding write_help conclude
run_exec p cmd path values args none io =
    (group_code (subcommands cmd), to_out (write_help p cmd path) io)
run_exec p cmd path values args (some exec) io =
    let (error, after) = exec values args io in conclude path error after

-- Run once the flags are parsed.
unfoldable pub run_parsed : Packages → Command → Text → Parsed → Streams → ℤ × Streams
unfolding write_help run_exec
run_parsed p cmd path help_asked io = (exit_ok, to_out (write_help p cmd path) io)
run_parsed p cmd path (bad_flags text) io =
    (exit_usage, to_err (path ++ codes ": " ++ text ++ codes "\n\n" ++ write_help p cmd path) io)
run_parsed p cmd path (parsed values args) io = run_exec p cmd path values args (info cmd).exec io

abbrev pub flag_set : Option (List Flag) → List Flag
flag_set none = []
flag_set (some flags) = flags

-- Run with what resolve returned.
unfoldable pub run_resolved : Packages → Command → Resolved → Streams → ℤ × Streams
unfolding write_help run_parsed
run_resolved p root (unknown name) io = (
  exit_usage,
  to_err
      ((info root).name
        ++ codes ": unknown command "
        ++ p.quote name
        ++ codes "\n\n"
        ++ write_help p root (info root).name)
      io,
)
run_resolved p root (found cmd args path) io =
    run_parsed p cmd path (p.parse (flag_set (info cmd).set_flags) args) io

-- Run
unfoldable pub run : Packages → Command → List Text → Streams → ℤ × Streams
unfolding resolve run_resolved
run p root argv io = run_resolved p root (resolve root argv) io
