-- ===== src/Commands/Help.antt =====
-- writeHelp, and the order of the subcommands in the help text.
use headnet.Base.{
  ℕ, zero, suc, ◌-◌, ◌≤◌, max, ◌≡◌, refl, Bool, not, Option, none, some, List, [], ◌∷◌, ◌++◌, arith,
  if◌then◌else◌, length, All,
}
use mathlib.Core.List.{Perm}
use headnet.Base.Sorting.{sort_by, IsSorted, sort_by-IsSorted, sort_by-Perm}
use headnet.Text.{
  Text, codes, eq, trim_space, byte_length, text_leb, text_leb_total, text_leb_trans,
}
use headnet.Commands.{Command, command, Commands, no_more, also, Info, info, Flag, Packages}
use headnet.Base.{length-append}

-- The subcommands that are not hidden.
unfoldable pub visible : Commands → List Info
visible no_more = []
visible (also c rest) =
    let others = visible rest in if (info c).hidden then others else info c ∷ others

abbrev pub by_name : Info → Info → Bool
by_name a b = text_leb a.name b.name

-- The subcommands in the order of the help text; sort.Slice leaves the order of equal names open.
unfoldable pub sorted_visible : Commands → List Info
unfolding visible sort_by
sorted_visible subs = sort_by by_name (visible subs)

unfoldable pub widest : List Info → ℕ
unfolding byte_length
widest [] = 0
widest (i ∷ rest) = max (byte_length i.name) (widest rest)

unfoldable pub spaces : ℕ → Text
spaces zero = []
spaces (suc n) = b' ' ∷ spaces n

-- The verb %-*s, which counts code points.
unfoldable pub pad_right : ℕ → Text → Text
unfolding spaces
pad_right width s = s ++ spaces (width - length s)

unfoldable pub help_lines : ℕ → List Info → Text
unfolding pad_right
help_lines width [] = []
help_lines width (i ∷ rest) =
    codes "  "
    ++ pad_right width i.name
    ++ codes "  "
    ++ i.summary
    ++ codes "\n"
    ++ help_lines width rest

abbrev pub about_text : Info → Text
about_text i =
    if not (eq i.long [])
    then trim_space i.long ++ codes "\n\n"
    else if not (eq i.summary [])
    then i.summary ++ codes "\n\n"
    else []

abbrev pub usage_text : Info → Commands → Text
usage_text i no_more = if eq i.usage [] then codes "[flags]" else i.usage
usage_text i (also c rest) = if eq i.usage [] then codes "<command> [flags]" else i.usage

abbrev pub commands_text : Text → List Info → Text
commands_text path [] = []
commands_text path (i ∷ rest) =
    codes "\nCommands:\n"
    ++ help_lines (widest (i ∷ rest)) (i ∷ rest)
    ++ codes "\nRun \""
    ++ path
    ++ codes " <command> -h\" for more information about a command.\n"

abbrev pub flags_text : Packages → Option (List Flag) → Text
flags_text p none = []
flags_text p (some []) = []
flags_text p (some (f ∷ fs)) = codes "\nFlags:\n" ++ p.print_defaults (f ∷ fs)

-- writeHelp
unfoldable pub write_help : Packages → Command → Text → Text
unfolding sorted_visible help_lines widest
write_help p (command i subs) path =
    about_text i
    ++ codes "Usage:\n  "
    ++ path
    ++ codes " "
    ++ usage_text i subs
    ++ codes "\n"
    ++ commands_text path (sorted_visible subs)
    ++ flags_text p i.set_flags

length-spaces : (n : ℕ) → length (spaces n) ≡ n
unfolding spaces
length-spaces zero = refl
length-spaces (suc n) = omega (arith, length-spaces n)

-- In the help of a command the summaries of a list of subcommands begin in one column: each name
-- is padded to the widest, and no name is wider than that in code points.
abbrev IsAligned : List Info → Type 0
IsAligned listing =
    All (λ (i : Info). length (pad_right (widest listing) i.name) ≡ widest listing) listing

length-byte_length : (s : Text) → length s ≤ byte_length s
unfolding byte_length
length-byte_length [] = omega arith
length-byte_length (c ∷ s) =
    let rest : length s ≤ byte_length s = length-byte_length s in ground arith

length-pad_right :
    (width : ℕ) (s : Text) → byte_length s ≤ width → length (pad_right width s) ≡ width
unfolding pad_right
length-pad_right width s fits =
    let plain : length s ≤ byte_length s = length-byte_length s in
    rw (length-append s (spaces (width - length s)), length-spaces (width - length s)) (omega arith)

padded-All :
    (width : ℕ) (listing : List Info)
    → widest listing ≤ width
    → All (λ (i : Info). length (pad_right width i.name) ≡ width) listing
unfolding widest
padded-All width [] h = tt
padded-All width (i ∷ rest) h =
    (length-pad_right width i.name (omega arith), padded-All width rest (omega arith))

-- The help of a command lists its subcommands that are not hidden, each as often as it is there,
-- in the order of their names, and pads their names to one width.
sorted_visible-IsSorted :
    (subs : Commands)
    → IsSorted by_name (sorted_visible subs)
      × Perm (sorted_visible subs) (visible subs)
      × IsAligned (sorted_visible subs)
unfolding sorted_visible
sorted_visible-IsSorted subs = (
  sort_by-IsSorted by_name (λ a b. text_leb_total a.name b.name)
      (λ a b c. text_leb_trans a.name b.name c.name) (visible subs),
  sort_by-Perm by_name (visible subs),
  padded-All _ (sort_by by_name (visible subs)) (omega arith),
)
