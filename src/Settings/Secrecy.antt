-- ===== src/Settings/Secrecy.antt =====
-- What a rendered configuration tells of its secrets.
use headnet.Base.{
  ◌≡◌, refl, sym, ap, ◌∙◌, inl, inr, Bool, true, false, not, ◌||◌, some, [], if◌then◌else◌,
  Bool-cases,
}
use headnet.Text.{eq}
use headnet.Settings.{
  Packages, Tags, Value, Values, Fields, structure, slice, no_values, one_value, nil_pointer,
  pointer, no_fields, field,
}
use headnet.Settings.Redaction.{
  one_item, items, shown, no_keys, mapping, Rendered, RenderedMap, words, mask, is_zero,
  mask_secret, is_secret, field_name, put_key, redact_value, redact_items, redact_struct, redact,
}

-- A secret that is set.
unfoldable pub is_populated : Value → Bool
unfolding is_zero
is_populated nil_pointer = false
is_populated (pointer v) = is_populated v
is_populated v = not (is_zero v)

-- Two values that differ at most in what their populated secret fields hold.
mutual
  pub data Alike : Packages → Value → Value → Type 0 where
    same_value : {p : Packages} {v : Value} → Alike p v v
    in_pointer : {p : Packages} {v w : Value} → Alike p v w → Alike p (pointer v) (pointer w)
    in_structure :
        {p : Packages} {fs gs : Fields}
        → AlikeFields p fs gs
        → Alike p (structure fs) (structure gs)
    in_slice :
        {p : Packages} {is_nil : Bool} {vs ws : Values}
        → AlikeItems p vs ws
        → Alike p (slice is_nil vs) (slice is_nil ws)

  pub data AlikeItems : Packages → Values → Values → Type 0 where
    no_more_items : {p : Packages} → AlikeItems p no_values no_values
    next_item :
        {p : Packages} {v w : Value} {vs ws : Values}
        → Alike p v w
        → AlikeItems p vs ws
        → AlikeItems p (one_value v vs) (one_value w ws)

  pub data AlikeFields : Packages → Fields → Fields → Type 0 where
    no_more_fields : {p : Packages} → AlikeFields p no_fields no_fields
    equal_field :
        {p : Packages} {tags : Tags} {v : Value} {fs gs : Fields}
        → AlikeFields p fs gs
        → AlikeFields p (field tags v fs) (field tags v gs)
    open_field :
        {p : Packages} {tags : Tags} {v w : Value} {fs gs : Fields}
        → is_secret p tags ≡ false
        → Alike p v w
        → AlikeFields p fs gs
        → AlikeFields p (field tags v fs) (field tags w gs)
    secret_field :
        {p : Packages} {tags : Tags} {v w : Value} {fs gs : Fields}
        → is_secret p tags ≡ true
        → is_populated v ≡ true
        → is_populated w ≡ true
        → AlikeFields p fs gs
        → AlikeFields p (field tags v fs) (field tags w gs)

masked : (v : Value) (b : Bool) → not b ≡ true → (if b then shown v else words mask) ≡ words mask
masked v true set = cc
masked v false set = refl

mask_secret-populated : (v : Value) → is_populated v ≡ true → mask_secret v ≡ words mask
unfolding is_populated mask_secret
mask_secret-populated nil_pointer h = cc
mask_secret-populated (pointer v) h = mask_secret-populated v h
mask_secret-populated v h = masked v (is_zero v) h

-- What redactStruct puts for a field.
abbrev field_value : Packages → Tags → Value → Rendered
field_value p tags v = if is_secret p tags then mask_secret v else redact_value p v

redact_struct-field :
    (p : Packages) (tags : Tags) (v w : Value) (fs gs : Fields) (out : RenderedMap)
    → field_value p tags v ≡ field_value p tags w
    → ((m : RenderedMap) → redact_struct p fs m ≡ redact_struct p gs m)
    → redact_struct p (field tags v fs) out ≡ redact_struct p (field tags w gs) out
unfolding redact_struct
redact_struct-field p tags v w fs gs out same rest =
    elim (Bool-cases (not tags.exported || eq (field_name p tags) [])) [
      | inl left_out ↦ rw left_out (rest out)
      | inr put ↦ rw put (
          ap (λ (x : Rendered). redact_struct p fs (put_key (field_name p tags) x out)) same
          ∙ rest (put_key (field_name p tags) (field_value p tags w) out))
    ]

mutual
  unfolding redact_value

  redact_value-Alike :
      (p : Packages) {v w : Value} → Alike p v w → redact_value p v ≡ redact_value p w
  redact_value-Alike p same_value = refl
  redact_value-Alike p (in_pointer a) = redact_value-Alike p a
  redact_value-Alike p (in_structure rest) = ap mapping (redact_struct-Alike p rest no_keys)
  redact_value-Alike p (in_slice rest) = ap items (redact_items-Alike p rest)

  redact_items-Alike :
      (p : Packages) {vs ws : Values} → AlikeItems p vs ws → redact_items p vs ≡ redact_items p ws
  redact_items-Alike p no_more_items = refl
  redact_items-Alike p (next_item a rest) =
      λ i. one_item (redact_value-Alike p a i) (redact_items-Alike p rest i)

  redact_struct-Alike :
      (p : Packages) {fs gs : Fields}
      → AlikeFields p fs gs
      → (out : RenderedMap) → redact_struct p fs out ≡ redact_struct p gs out
  redact_struct-Alike p no_more_fields out = refl
  redact_struct-Alike p (equal_field {tags = tags} {v = v} {fs = fs} {gs = gs} rest) out =
      redact_struct-field p tags v v fs gs out refl (redact_struct-Alike p rest)
  redact_struct-Alike p (open_field {tags = tags} {v = v} {w = w} {fs = fs} {gs = gs} plain a rest)
        out =
      redact_struct-field p tags v w fs gs out (rw plain (redact_value-Alike p a))
        (redact_struct-Alike p rest)
  redact_struct-Alike p
        (secret_field {tags = tags} {v = v} {w = w} {fs = fs} {gs = gs} hidden hv hw rest) out =
      redact_struct-field p tags v w fs gs out
        (rw hidden (mask_secret-populated v hv ∙ sym (mask_secret-populated w hw)))
        (redact_struct-Alike p rest)

-- Redact renders two configurations alike that differ at most in what their fields tagged secret
-- hold, where these are set in both, at any depth of sections, pointers and slices.
pub redact-Alike : (p : Packages) {v w : Value} → Alike p v w → redact p v ≡ redact p w
unfolding redact
redact-Alike p same_value = refl
redact-Alike p (in_pointer a) = redact-Alike p a
redact-Alike p (in_structure rest) = ap some (redact_struct-Alike p rest no_keys)
redact-Alike p (in_slice rest) = refl
