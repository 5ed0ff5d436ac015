-- ===== src/Settings/Tests.antt =====
-- Runs of the overlay and of the redaction.
use headnet.Base.{◌≡◌, refl, true, none, some, [], if◌then◌else◌, length}
use headnet.Base.Int.{ℤ, pos}
use headnet.Text.{Text, codes, eq, split, trim_space, trim_left, is_space}
use headnet.Shared.{cut}
use headnet.Settings.{Packages, Tags, Fields, text, int, structure, pointer, no_fields, field}
use headnet.Settings.Overlay.{set, set_value, trimmed_parts, overlay, apply_env, apply_environment}
use headnet.Settings.Again.{apply_environment-again}
use headnet.Settings.Redaction.{
  is_zero, mask_secret, field_name, put_key, shown_texts, redact_value, redact, one_key, no_keys,
  words, shown, mask,
}
use headnet.Settings.Secrecy.{
  is_populated, in_structure, secret_field, no_more_fields, equal_field, redact-Alike,
}

program : Unit {0}
unfolding eq split trim_space trim_left is_space cut trimmed_parts set_value overlay apply_env
    apply_environment is_zero mask_secret field_name put_key shown_texts redact_value redact
    is_populated
program = tt

-- One variable is set.
abbrev plain : Packages
plain = record {
  parse_duration = λ t. none;
  parse_bool = λ t. none;
  parse_int = λ bits t. some (pos (length t));
  parse_uint = λ bits t. none;
  parse_float = λ bits t. none;
  print_duration = λ d. [];
  print_time = λ t. [];
  to_lower = λ t. t;
  equal_fold = eq;
  getenv = λ key. if eq key (codes "HEADNET_PORT") then codes " 8080 " else [];
}

abbrev tagged : Text → Text → Text → Tags
tagged name env secret = record {
  name = name;
  exported = true;
  yaml = codes "";
  env = env;
  secret = secret;
}

abbrev port_tags : Tags
port_tags = tagged (codes "port") (codes "PORT") []

abbrev token_tags : Tags
token_tags = tagged (codes "token") (codes "TOKEN") (codes "true")

abbrev settings : ℤ → Text → Fields
settings port token = field port_tags (int 64 port) (field token_tags (text token) no_fields)

main :
    (apply_environment plain (codes "HEADNET") (settings (pos 1) (codes "t"))
      ≡ set (settings (pos 4) (codes "t")))
    × (redact plain (pointer (structure (settings (pos 1) (codes "t"))))
        ≡ some (
            one_key
              (codes "port")
              (shown (int 64 (pos 1)))
              (one_key (codes "token") (words mask) no_keys)))
    × (redact plain (structure (settings (pos 1) []))
        ≡ some (
            one_key
              (codes "port")
              (shown (int 64 (pos 1)))
              (one_key (codes "token") (shown (text [])) no_keys)))
unfolding program
main = (refl, refl, refl)

apply_environment-again_example :
    apply_environment plain (codes "HEADNET") (settings (pos 4) (codes "t"))
    ≡ set (settings (pos 4) (codes "t"))
unfolding program
apply_environment-again_example =
    apply_environment-again plain (codes "HEADNET") (settings (pos 1) (codes "t")) refl

redact-Alike_example :
    redact plain (structure (settings (pos 1) (codes "t")))
    ≡ redact plain (structure (settings (pos 1) (codes "other")))
unfolding program
redact-Alike_example =
    redact-Alike plain {v = structure (settings (pos 1) (codes "t"))}
      {w = structure (settings (pos 1) (codes "other"))}
      (in_structure (
        equal_field {tags = port_tags} {v = int 64 (pos 1)} (
          secret_field {tags = token_tags} {v = text (codes "t")} {w = text (codes "other")} refl
            refl refl no_more_fields)))
