-- ===== src/Settings/Overlay.antt =====
-- ApplyEnv: what the environment makes of a configuration. On an error the source leaves the
-- fields before it overwritten, which is not kept here.
use headnet.Base.{Bool, not, ◌||◌, Option, none, some, List, [], ◌∷◌, ◌++◌, if◌then◌else◌}
use headnet.Text.{Text, codes, eq, split, trim_space}
use headnet.Settings.{
  Packages, Tags, Value, Fields, text, boolean, int, uint, float, duration, structure, texts,
  no_fields, field,
}

pub data Problem : Type 0 where
  not_a_duration not_a_boolean not_an_integer not_natural not_a_number unsupported : Problem

-- The result of an overlay, or the variable that could not be read and why.
pub data Attempt (A : Type 0) : Type 0 where
  set : A → Attempt A
  failed : Text → Problem → Attempt A

abbrev pub parsed_or : {A : Type 0} → Problem → (A → Value) → Text → Option A → Attempt Value
parsed_or problem make key none = failed key problem
parsed_or problem make key (some a) = set (make a)

-- The parts of a list that are not blank, trimmed.
unfoldable pub trimmed_parts : List Text → List Text
unfolding trim_space
trimmed_parts [] = []
trimmed_parts (part ∷ parts) =
    let rest = trimmed_parts parts in
    if eq (trim_space part) [] then rest else trim_space part ∷ rest

-- setValue, for the variable of a key.
unfoldable pub set_value : Packages → Text → Text → Value → Attempt Value
unfolding trimmed_parts split
set_value p key raw (duration d) = parsed_or not_a_duration duration key (p.parse_duration raw)
set_value p key raw (text t) = set (text raw)
set_value p key raw (boolean b) = parsed_or not_a_boolean boolean key (p.parse_bool raw)
set_value p key raw (int bits n) = parsed_or not_an_integer (int bits) key (p.parse_int bits raw)
set_value p key raw (uint bits n) = parsed_or not_natural (uint bits) key (p.parse_uint bits raw)
set_value p key raw (float bits x) =
    parsed_or not_a_number (float bits) key (p.parse_float bits raw)
set_value p key raw (texts ts) = set (texts (some (trimmed_parts (split b',' raw))))
set_value p key raw _ = failed key unsupported

abbrev pub has_variable : Tags → Bool
has_variable tags = not (eq tags.env [] || eq tags.env (codes "-"))

abbrev pub variable : Text → Tags → Text
variable prefix tags = prefix ++ b'_' ∷ tags.env

-- The body of the loop of applyEnv for a field that is no section.
unfoldable pub overlay : Packages → Text → Tags → Value → Attempt Value
unfolding set_value
overlay p prefix tags v =
    if not (has_variable tags)
    then set v
    else let raw = trim_space (p.getenv (variable prefix tags)) in
      if eq raw [] then set v else set_value p (variable prefix tags) raw v

abbrev pub as_structure : Attempt Fields → Attempt Value
as_structure (set entries) = set (structure entries)
as_structure (failed key problem) = failed key problem

abbrev pub and_rest : Tags → Attempt Value → Attempt Fields → Attempt Fields
and_rest tags (failed key problem) rest = failed key problem
and_rest tags (set v) (failed key problem) = failed key problem
and_rest tags (set v) (set entries) = set (field tags v entries)

unfoldable mutual
  unfolding overlay

  -- applyEnv
  pub apply_env : Packages → Text → Fields → Attempt Fields
  apply_env p prefix no_fields = set no_fields
  apply_env p prefix (field tags v rest) =
      and_rest tags (if not tags.exported then set v else apply_value p prefix tags v)
        (apply_env p prefix rest)

  -- The body of the loop of applyEnv.
  pub apply_value : Packages → Text → Tags → Value → Attempt Value
  apply_value p prefix tags (structure entries) = as_structure (apply_env p prefix entries)
  apply_value p prefix tags v = overlay p prefix tags v

-- ApplyEnv, for a struct.
unfoldable pub apply_environment : Packages → Text → Fields → Attempt Fields
unfolding apply_env
apply_environment p prefix entries =
    if eq prefix [] then set entries else apply_env p prefix entries
