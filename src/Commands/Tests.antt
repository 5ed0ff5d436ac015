-- ===== src/Commands/Tests.antt =====
-- Runs of a small command tree.
use headnet.Base.{◌≡◌, refl, Bool, true, false, Option, none, some, [], ◌∷◌, if◌then◌else◌}
use headnet.Base.Sorting.{insert_by, sort_by}
use headnet.Text.{Text, codes, eq, text_leb, byte_length, is_space, trim_left, trim_space}
use headnet.Commands.{
  Command, Commands, command, no_more, also, Info, lookup_command, find_command, has_dash, Packages,
  Exec, Streams, exit_ok, exit_usage, exit_not_implemented, not_implemented, parsed, help_asked,
  resolve_from, resolve,
}
use headnet.Commands.Running.{to_out, run, run_resolved, run_parsed, run_exec, conclude}
use headnet.Commands.Help.{
  write_help, visible, sorted_visible, widest, spaces, pad_right, help_lines,
}
use headnet.Commands.Dispatch.{Resolves, resolve-Resolves}

program : Unit {0}
unfolding eq text_leb byte_length is_space trim_left trim_space insert_by sort_by find_command
    lookup_command has_dash resolve_from resolve visible sorted_visible widest spaces pad_right
    help_lines write_help conclude run_exec run_parsed run_resolved run not_implemented
program = tt

-- A parser that knows the flag -h.
abbrev plain : Packages
plain = record {
  parse = λ flags args. elim args [
    | [] ↦ parsed [] []
    | ◌∷◌ word rest ↦ if eq word (codes "-h") then help_asked else parsed [] (word ∷ rest)
  ];
  print_defaults = λ flags. [];
  quote = λ t. t;
}

abbrev a_command : Text → Bool → Option Exec → Info
a_command name hidden exec = record {
  name = name;
  summary = codes "s";
  usage = [];
  long = [];
  set_flags = none;
  exec = exec;
  hidden = hidden;
}

abbrev echo : Exec
echo values args io = (none, to_out (codes "done") io)

abbrev later : Exec
later values args io = (some (not_implemented (codes "up") (codes "Phase 5")), io)

abbrev groups : Commands
groups = also (command (a_command (codes "up") false (some later)) no_more) (
    also (command (a_command (codes "ping") false (some echo)) no_more)
      (also (command (a_command (codes "debug") true (some echo)) no_more) no_more))

abbrev root : Command
root = command (a_command (codes "headnet") false none) groups

abbrev silent : Streams
silent = record { out = []; err_out = [] }

main :
    ((run plain root (codes "ping" ∷ codes "device" ∷ []) silent).0 ≡ exit_ok)
    × ((run plain root (codes "up" ∷ []) silent).0 ≡ exit_not_implemented)
    × ((run plain root (codes "nope" ∷ []) silent).0 ≡ exit_usage)
    × ((run plain root [] silent).0 ≡ exit_usage)
    × (write_help plain root (codes "headnet")
        ≡ codes
            "s\n\nUsage:\n  headnet <command> [flags]\n\nCommands:\n  ping  s\n  up    s\n\nRun \"headnet <command> -h\" for more information about a command.\n")
unfolding program
main = (refl, refl, refl, refl, refl)

resolve-Resolves_example :
    Resolves true root
      (codes "headnet")
      (codes "ping" ∷ codes "device" ∷ [])
      (resolve root (codes "ping" ∷ codes "device" ∷ []))
resolve-Resolves_example = resolve-Resolves root (codes "ping" ∷ codes "device" ∷ [])
