-- ===== src/Commands.antt =====
-- internal/cliutil: the command tree of the command-line tools, its dispatch and its help. What
-- they use of the packages of Go is the record `Packages`; a flag set is the list of the flags that SetFlags
-- registers. What is written to a stream is the text written so far.
pub mod Dispatch
pub mod Exits
pub mod Help
pub mod Running
pub mod Tests
use headnet.Base.{
  ℕ, zero, suc, ◌+◌, ◌-◌, ◌*◌, ◌/◌, ◌%◌, ◌^◌, ◌≤◌, ◌<◌, min, max, ◌≡◌, refl, sym, ap, subst, ◌∙◌,
  ◌↔◌, ◌⊎◌, inl, inr, Bool, true, false, not, ◌&&◌, ◌||◌, Option, none, some, List, [], ◌∷◌, ◌++◌,
  map, foldr, arith, ltb, leb, ◌==◌, if◌then◌else◌, Bool-cases, Option-cases, length, All, take,
  drop,
}
use headnet.Base.Int.{ℤ, pos}
use headnet.Base.Sorting.{insert_by, sort_by}
use headnet.Text.{Text, codes, eq, trim_space, byte_length, cut_prefix, text_leb}

-- flag.Flag
pub record Flag : Type 0 where
  pub name : Text
  pub usage : Text
  pub default_value : Text

-- The results of FlagSet.Parse: help was asked for, the flags were wrong, or the flags have values
-- and these arguments are left.
pub data Parsed : Type 0 where
  help_asked : Parsed
  bad_flags : Text → Parsed
  parsed : List (Text × Text) → List Text → Parsed

-- What is used of the packages flag and strconv.
pub record Packages : Type 0 where
  pub parse : List Flag → List Text → Parsed
  -- FlagSet.PrintDefaults
  pub print_defaults : List Flag → Text
  pub quote : Text → Text

-- IO, by what its two writers got.
pub record Streams : Type 0 where
  pub out : Text
  pub err_out : Text

-- The error of a command: an ExitError, whose text may be missing, or another one.
pub data CommandError : Type 0 where
  exit_error : ℤ → Option Text → CommandError
  other_error : Text → CommandError

-- Exec gets the values of the flags, the positional arguments and the streams.
abbrev pub Exec : Type 0
Exec = List (Text × Text) → List Text → Streams → Option CommandError × Streams

-- Command without its subcommands.
pub record Info : Type 0 where
  pub name : Text
  pub summary : Text
  pub usage : Text
  pub long : Text
  pub set_flags : Option (List Flag)
  pub exec : Option Exec
  pub hidden : Bool

mutual
  -- Command
  pub data Command : Type 0 where
    command : Info → Commands → Command

  pub data Commands : Type 0 where
    no_more : Commands
    also : Command → Commands → Commands

abbrev pub info : Command → Info
info (command i subs) = i

abbrev pub subcommands : Command → Commands
subcommands (command i subs) = subs

abbrev pub exit_ok : ℤ
exit_ok = pos 0

abbrev pub exit_failure : ℤ
exit_failure = pos 1

abbrev pub exit_usage : ℤ
exit_usage = pos 2

abbrev pub exit_not_implemented : ℤ
exit_not_implemented = pos 3

abbrev pub exit_unavailable : ℤ
exit_unavailable = pos 4

-- NotImplemented
unfoldable pub not_implemented : Text → Text → CommandError
not_implemented feature phase = exit_error exit_not_implemented (
    some (
      feature
      ++ codes " is not implemented yet.\n\nIt is planned for "
      ++ phase
      ++ codes
          " of the roadmap:\n  https://github.com/CauaMora1s/Headnet/blob/main/docs/ROADMAP.md"))

-- The loop of Command.lookup.
unfoldable pub find_command : Text → Commands → Option Command
find_command name no_more = none
find_command name (also c rest) =
    let later = find_command name rest in if eq (info c).name name then some c else later

-- Command.lookup
unfoldable pub lookup_command : Command → Text → Option Command
unfolding find_command
lookup_command c name = find_command name (subcommands c)

-- strings.HasPrefix(name, "-")
unfoldable pub has_dash : Text → Bool
has_dash [] = false
has_dash (c ∷ rest) = c == b'-'

-- The results of resolve: the command, the arguments left and the path, or the unknown name.
pub data Resolved : Type 0 where
  found : Command → List Text → Text → Resolved
  unknown : Text → Resolved

-- The loop of resolve; `at_root` is cmd == root.
unfoldable pub resolve_from : Bool → Command → Text → List Text → Resolved
unfolding has_dash lookup_command
resolve_from at_root cmd path [] = found cmd [] path
resolve_from at_root cmd path (name ∷ argv) =
    if has_dash name then found cmd (name ∷ argv) path else elim (lookup_command cmd name) [
      | none ↦ if at_root then unknown name else found cmd (name ∷ argv) path
      | some child ↦ resolve_from false child (path ++ b' ' ∷ (info child).name) argv
    ]

-- resolve
unfoldable pub resolve : Command → List Text → Resolved
unfolding resolve_from
resolve root argv = resolve_from true root (info root).name argv
