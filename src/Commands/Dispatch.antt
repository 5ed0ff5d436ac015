-- ===== src/Commands/Dispatch.antt =====
-- Which command an invocation runs.
use headnet.Base.{
  ◌≡◌, refl, ap, subst, inl, inr, Bool, true, false, none, some, List, [], ◌∷◌, ◌++◌, if◌then◌else◌,
  Bool-cases, Option-cases,
}
use headnet.Text.{Text, eq, eq→≡}
use headnet.Commands.{
  Commands, no_more, also, subcommands, also, Commands, find_command, subcommands, Command, info,
  lookup_command, has_dash, Resolved, found, unknown, resolve_from, resolve,
}

-- A sequence of names that leads down the command tree, each the first subcommand of its name.
data Leads : Command → List Text → Command → Type 0 where
  here : {c : Command} → Leads c [] c
  down :
      {c child target : Command} {name : Text} {names : List Text}
      → has_dash name ≡ false
      → lookup_command c name ≡ some child
      → Leads child names target
      → Leads c (name ∷ names) target

-- The arguments do not go on with a subcommand: there are none, or they begin with a flag, or with
-- a word that is no subcommand of a command below the root.
data Stops (c : Command) : Bool → List Text → Type 0 where
  at_end : {at_root : Bool} → Stops c at_root []
  at_flag :
      {at_root : Bool} {name : Text} {rest : List Text}
      → has_dash name ≡ true
      → Stops c at_root (name ∷ rest)
  at_word :
      {name : Text} {rest : List Text}
      → has_dash name ≡ false
      → lookup_command c name ≡ none
      → Stops c false (name ∷ rest)

-- The path of the names from a command on.
unfoldable pub path_of : Text → List Text → Text
path_of path [] = path
path_of path (name ∷ names) = path_of (path ++ b' ' ∷ name) names

-- The command is still the root.
abbrev none_yet : Bool → List Text → Bool
none_yet at_root [] = at_root
none_yet at_root (name ∷ names) = false

-- What an outcome says of the arguments: the names walk down to the command, the rest is left for
-- it; or the first word is no flag and no command.
pub Resolves : Bool → Command → Text → List Text → Resolved → Type 0
Resolves at_root root path argv (found cmd args full) =
    (names : List Text) × (argv ≡ names ++ args)
    × Leads root names cmd
    × Stops cmd (none_yet at_root names) args
    × (full ≡ path_of path names)
Resolves at_root root path argv (unknown name) =
    (rest : List Text) × (argv ≡ name ∷ rest)
    × (at_root ≡ true)
    × (has_dash name ≡ false)
    × (lookup_command root name ≡ none)

find_command-name :
    (name : Text) (subs : Commands) (child : Command)
    → find_command name subs ≡ some child
    → (info child).name ≡ name
unfolding find_command
find_command-name name no_more child h = cc
find_command-name name (also c rest) child h = elim (Bool-cases (eq (info c).name name)) [
  | inl same ↦
      let at : some c ≡ some child = rw same at h in
      let is : c ≡ child = cc in
      subst (λ (x : Command). (info x).name ≡ name) is (eq→≡ (info c).name name same)
  | inr apart ↦ find_command-name name rest child (rw apart at h)
]

lookup_command-name :
    (c child : Command) (name : Text)
    → lookup_command c name ≡ some child
    → (info child).name ≡ name
unfolding lookup_command
lookup_command-name c child name h = find_command-name name (subcommands c) child h

-- One step down.
deeper :
    (at_root : Bool) (c child : Command) (path name : Text) (argv : List Text) (r : Resolved)
    → has_dash name ≡ false
    → lookup_command c name ≡ some child
    → Resolves false child (path ++ b' ' ∷ name) argv r
    → Resolves at_root c path (name ∷ argv) r
unfolding Resolves path_of
deeper at_root c child path name argv (found cmd args full) plain is
      (names, same, leads, stops, path_is) =
    (name ∷ names, ap (◌∷◌ name) same, down plain is leads, still names stops, path_is)
  where
    still : (names : List Text) → Stops cmd (none_yet false names) args → Stops cmd false args
    still [] s = s
    still (x ∷ xs) s = s
deeper at_root c child path name argv (unknown word) plain is (rest, same, root, _, _) = absurd cc

-- A word that names no subcommand.
no_child :
    (at_root : Bool) (c : Command) (path name : Text) (argv : List Text)
    → has_dash name ≡ false
    → lookup_command c name ≡ none
    → Resolves at_root c path
        (name ∷ argv)
        (if at_root then unknown name else found c (name ∷ argv) path)
unfolding Resolves path_of
no_child true c path name argv plain missing = (argv, refl, refl, plain, missing)
no_child false c path name argv plain missing = ([], refl, here, at_word plain missing, refl)

resolve_from-Resolves :
    (at_root : Bool) (c : Command) (path : Text) (argv : List Text)
    → Resolves at_root c path argv (resolve_from at_root c path argv)
unfolding resolve_from Resolves path_of
resolve_from-Resolves at_root c path [] = ([], refl, here, at_end, refl)
resolve_from-Resolves at_root c path (name ∷ argv) = elim (Bool-cases (has_dash name)) [
  | inl dash ↦ rw dash ([], refl, here, at_flag dash, refl)
  | inr plain ↦ elim (Option-cases (lookup_command c name)) [
    | inl missing ↦ rw (plain, missing) (no_child at_root c path name argv plain missing)
    | inr (child, is) ↦
        let below : Resolves false child (path ++ b' ' ∷ name) argv
            (resolve_from false child (path ++ b' ' ∷ name) argv) =
          resolve_from-Resolves false child (path ++ b' ' ∷ name) argv in
        rw (plain, is, lookup_command-name c child name is)
          (deeper at_root c child path name argv _ plain is below)
  ]
]

-- resolve walks down the tree along the first words of the arguments, each the name of a
-- subcommand of the command before, as far as they go; the command it returns is the one reached,
-- the arguments are the others, which begin with a flag or with no subcommand of it, and the path
-- is the names walked along. It refuses a first word only when it is neither a flag nor the name
-- of a command of the root.
pub resolve-Resolves :
    (root : Command) (argv : List Text)
    → Resolves true root (info root).name argv (resolve root argv)
unfolding resolve
resolve-Resolves root argv = resolve_from-Resolves true root (info root).name argv
