-- ===== src/Settings/Loading.antt =====
-- Load: the layers of a configuration, the file below the environment, and its validation. Reading
-- a file and what YAML makes of it are arguments.
use headnet.Base.{Bool, Option, none, some, [], if◌then◌else◌}
use headnet.Text.{Text, eq, trim_space}
use headnet.Settings.{Packages, Fields}
use headnet.Settings.Overlay.{Problem, Attempt, set, failed, apply_environment}

pub data FileContents : Type 0 where
  missing unreadable : FileContents
  contents : Text → FileContents

-- The file system, the YAML decoder that rejects unknown keys, and Validate.
pub record Sources : Type 0 where
  pub read_file : Text → FileContents
  pub unmarshal : Text → Fields → Option Fields
  pub is_valid : Fields → Bool

pub data Loaded : Type 0 where
  ready : Fields → Loaded
  file_not_found file_unreadable file_malformed invalid : Loaded
  bad_variable : Text → Problem → Loaded

abbrev pub parsed_file : Option Fields → Loaded
parsed_file none = file_malformed
parsed_file (some entries) = ready entries

abbrev pub overlaid : Sources → FileContents → Fields → Loaded
overlaid s missing entries = file_not_found
overlaid s unreadable entries = file_unreadable
overlaid s (contents raw) entries =
    if eq (trim_space raw) [] then ready entries else parsed_file (s.unmarshal raw entries)

-- loadFile
unfoldable pub load_file : Sources → Text → Fields → Loaded
load_file s path entries = overlaid s (s.read_file path) entries

abbrev pub validated : Sources → Attempt Fields → Loaded
validated s (failed key problem) = bad_variable key problem
validated s (set entries) = if s.is_valid entries then ready entries else invalid

abbrev pub with_environment : Packages → Sources → Text → Loaded → Loaded
with_environment p s prefix (ready entries) = validated s (apply_environment p prefix entries)
with_environment p s prefix other = other

-- Load, for a struct that has Validate.
unfoldable pub load : Packages → Sources → Text → Text → Fields → Loaded
unfolding load_file apply_environment
load p s path prefix defaults =
    with_environment p s prefix (if eq path [] then ready defaults else load_file s path defaults)
