-- ===== src/Settings.antt =====
-- packages/config: the overlay of environment variables on a configuration, and the rendering of
-- a configuration with its secrets masked. What the package reflect shows of a Go value is a
-- `Value`; the parsers of strconv and time and the printing of durations and times are the record
-- `Packages`.
pub mod Overlay
pub mod Loading
pub mod Again
pub mod Redaction
pub mod Secrecy
pub mod Tests
use headnet.Base.{
  ℕ, zero, suc, ◌+◌, ◌-◌, ◌*◌, ◌/◌, ◌%◌, ◌^◌, ◌≤◌, ◌<◌, min, max, ◌≡◌, refl, sym, ap, subst, ◌∙◌,
  ◌↔◌, ◌⊎◌, inl, inr, Bool, true, false, not, ◌&&◌, ◌||◌, Option, none, some, List, [], ◌∷◌, ◌++◌,
  map, foldr, arith, ltb, leb, ◌==◌, if◌then◌else◌, Bool-cases, Option-cases, length, All, take,
  drop,
}
use headnet.Base.Int.{ℤ, pos, negsuc}
use headnet.Text.{Text, codes, eq, split, trim_space}
use headnet.Shared.{cut}

-- The tags of a field of a struct.
pub record Tags : Type 0 where
  pub name : Text
  pub exported : Bool
  pub yaml : Text
  pub env : Text
  pub secret : Text

-- A Go value. An integer has its width, a float the text of its shortest form; a slice of
-- strings is apart from the others.
mutual
  pub data Value : Type 0 where
    text : Text → Value
    boolean : Bool → Value
    int : ℕ → ℤ → Value
    uint : ℕ → ℕ → Value
    float : ℕ → Text → Value
    duration : ℤ → Value
    -- The zero time is `none`, and so is a slice of strings that is nil.
    time : Option ℕ → Value
    structure : Fields → Value
    texts : Option (List Text) → Value
    -- Another slice, with whether it is nil.
    slice : Bool → Values → Value
    nil_pointer : Value
    pointer : Value → Value
    -- A value of a kind that the package has no case for, by its text, and whether it is zero.
    opaque : Text → Bool → Value

  pub data Values : Type 0 where
    no_values : Values
    one_value : Value → Values → Values

  pub data Fields : Type 0 where
    no_fields : Fields
    field : Tags → Value → Fields → Fields

-- What is used of strconv, strings and time.
pub record Packages : Type 0 where
  pub parse_duration : Text → Option ℤ
  pub parse_bool : Text → Option Bool
  -- ParseInt, ParseUint and ParseFloat, with the number of bits.
  pub parse_int : ℕ → Text → Option ℤ
  pub parse_uint : ℕ → Text → Option ℕ
  pub parse_float : ℕ → Text → Option Text
  pub print_duration : ℤ → Text
  -- Time.Format(time.RFC3339)
  pub print_time : Option ℕ → Text
  pub to_lower : Text → Text
  -- strings.EqualFold
  pub equal_fold : Text → Text → Bool
  pub getenv : Text → Text
