-- ===== src/Settings/Redaction.antt =====
-- Redact: a configuration as a map, with the fields that are tagged secret masked.
use headnet.Base.{
  Bool, true, false, not, ◌&&◌, ◌||◌, Option, none, some, List, [], ◌∷◌, ◌==◌, if◌then◌else◌,
}
use headnet.Base.Int.{pos, negsuc}
use headnet.Text.{Text, codes, eq}
use headnet.Shared.{cut}
use headnet.Settings.{
  Packages, Tags, Value, Values, Fields, text, boolean, int, uint, float, duration, time, structure,
  texts, slice, no_values, one_value, nil_pointer, pointer, opaque, no_fields, field,
}

-- What a map that Redact builds holds. A key stands once in a map.
mutual
  pub data Rendered : Type 0 where
    null : Rendered
    -- A value as it is.
    shown : Value → Rendered
    words : Text → Rendered
    items : RenderedList → Rendered
    mapping : RenderedMap → Rendered

  pub data RenderedList : Type 0 where
    no_items : RenderedList
    one_item : Rendered → RenderedList → RenderedList

  pub data RenderedMap : Type 0 where
    no_keys : RenderedMap
    one_key : Text → Rendered → RenderedMap → RenderedMap

-- Mask
abbrev pub mask : Text
mask = codes "***"

unfoldable mutual
  -- reflect.Value.IsZero
  pub is_zero : Value → Bool
  is_zero (text []) = true
  is_zero (text (c ∷ t)) = false
  is_zero (boolean b) = not b
  is_zero (int bits (pos n)) = n == 0
  is_zero (int bits (negsuc n)) = false
  is_zero (uint bits n) = n == 0
  is_zero (float bits x) = eq x (codes "0")
  is_zero (duration (pos n)) = n == 0
  is_zero (duration (negsuc n)) = false
  is_zero (time none) = true
  is_zero (time (some t)) = false
  is_zero (structure entries) = all_zero entries
  is_zero (texts none) = true
  is_zero (texts (some ts)) = false
  is_zero (slice is_nil vs) = is_nil
  is_zero nil_pointer = true
  is_zero (pointer v) = false
  is_zero (opaque t zero_value) = zero_value

  pub all_zero : Fields → Bool
  all_zero no_fields = true
  all_zero (field tags v rest) = is_zero v && all_zero rest

-- maskSecret
unfoldable pub mask_secret : Value → Rendered
unfolding is_zero
mask_secret nil_pointer = null
mask_secret (pointer v) = mask_secret v
mask_secret v = if is_zero v then shown v else words mask

-- isSecret
abbrev pub is_secret : Packages → Tags → Bool
is_secret p tags = p.equal_fold tags.secret (codes "true")

abbrev pub before_comma : Text → Option (Text × Text) → Text
before_comma tag none = tag
before_comma tag (some (name, rest)) = name

-- fieldName
unfoldable pub field_name : Packages → Tags → Text
unfolding cut
field_name p tags =
    if eq tags.yaml (codes "-")
    then []
    else let name = before_comma tags.yaml (cut b',' tags.yaml) in
      if eq name [] then p.to_lower tags.name else name

-- out[name] = value.
unfoldable pub put_key : Text → Rendered → RenderedMap → RenderedMap
put_key key value no_keys = one_key key value no_keys
put_key key value (one_key name old rest) =
    let others = put_key key value rest in
    if eq name key then one_key name value rest else one_key name old others

unfoldable pub shown_texts : List Text → RenderedList
shown_texts [] = no_items
shown_texts (t ∷ ts) = one_item (shown (text t)) (shown_texts ts)

abbrev pub texts_of : Option (List Text) → List Text
texts_of none = []
texts_of (some ts) = ts

unfoldable mutual
  unfolding mask_secret field_name put_key shown_texts

  -- redactValue
  pub redact_value : Packages → Value → Rendered
  redact_value p nil_pointer = null
  redact_value p (pointer v) = redact_value p v
  redact_value p (duration d) = words (p.print_duration d)
  redact_value p (time t) = words (p.print_time t)
  redact_value p (structure entries) = mapping (redact_struct p entries no_keys)
  redact_value p (slice is_nil vs) = items (redact_items p vs)
  redact_value p (texts ts) = items (shown_texts (texts_of ts))
  redact_value p (text t) = shown (text t)
  redact_value p (boolean b) = shown (boolean b)
  redact_value p (int bits n) = shown (int bits n)
  redact_value p (uint bits n) = shown (uint bits n)
  redact_value p (float bits x) = shown (float bits x)
  redact_value p (opaque t zero_value) = shown (opaque t zero_value)

  pub redact_items : Packages → Values → RenderedList
  redact_items p no_values = no_items
  redact_items p (one_value v vs) = one_item (redact_value p v) (redact_items p vs)

  -- redactStruct, with the map so far.
  pub redact_struct : Packages → Fields → RenderedMap → RenderedMap
  redact_struct p no_fields out = out
  redact_struct p (field tags v rest) out =
      let name = field_name p tags in
      let value = (if is_secret p tags then mask_secret v else redact_value p v) in
      if not tags.exported || eq name []
      then redact_struct p rest out
      else redact_struct p rest (put_key name value out)

-- Redact, or `none` where it reports an error.
unfoldable pub redact : Packages → Value → Option RenderedMap
unfolding redact_struct
redact p (pointer v) = redact p v
redact p (structure entries) = some (redact_struct p entries no_keys)
-- A time is a struct without exported fields.
redact p (time t) = some no_keys
redact p _ = none
