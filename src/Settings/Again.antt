-- ===== src/Settings/Again.antt =====
-- Applying the environment again.
use headnet.Base.{
  ◌≡◌, refl, sym, ap, subst, ◌∙◌, inl, inr, Bool, true, false, not, Option, none, some, [],
  if◌then◌else◌, Bool-cases,
}
use headnet.Text.{Text, eq, trim_space}
use headnet.Settings.{
  Packages, Tags, Value, Fields, text, boolean, int, uint, float, duration, time, structure, texts,
  slice, nil_pointer, pointer, opaque, no_fields, field,
}
use headnet.Settings.Overlay.{
  Problem, Attempt, set, failed, parsed_or, set_value, has_variable, variable, overlay,
  as_structure, and_rest, apply_env, apply_value, apply_environment,
}

-- No section of the configuration.
abbrev is_plain : Value → Bool
is_plain (structure entries) = false
is_plain _ = true

-- What an overlay returns is plain, and stays as it is under a further one.
abbrev Stays : (Value → Attempt Value) → Attempt Value → Type 0
Stays again (set v) = (is_plain v ≡ true) × (again v ≡ set v)
Stays again (failed key problem) = Unit

parsed_or-Stays :
    {A : Type 0} (again : Value → Attempt Value) (problem : Problem) (make : A → Value) (key : Text)
    (o : Option A)
    → ((a : A) → o ≡ some a → (is_plain (make a) ≡ true) × (again (make a) ≡ set (make a)))
    → Stays again (parsed_or problem make key o)
parsed_or-Stays again problem make key none h = tt
parsed_or-Stays again problem make key (some a) h = h a refl

set_value-Stays :
    (p : Packages) (key raw : Text) (v : Value)
    → Stays (set_value p key raw) (set_value p key raw v)
unfolding set_value
set_value-Stays p key raw (duration d) =
    parsed_or-Stays _ _ _ _ (p.parse_duration raw) (λ a e. (refl, rw e refl))
set_value-Stays p key raw (text t) = (refl, refl)
set_value-Stays p key raw (boolean b) =
    parsed_or-Stays _ _ _ _ (p.parse_bool raw) (λ a e. (refl, rw e refl))
set_value-Stays p key raw (int bits n) =
    parsed_or-Stays _ _ _ _ (p.parse_int bits raw) (λ a e. (refl, rw e refl))
set_value-Stays p key raw (uint bits n) =
    parsed_or-Stays _ _ _ _ (p.parse_uint bits raw) (λ a e. (refl, rw e refl))
set_value-Stays p key raw (float bits x) =
    parsed_or-Stays _ _ _ _ (p.parse_float bits raw) (λ a e. (refl, rw e refl))
set_value-Stays p key raw (texts ts) = (refl, refl)
set_value-Stays p key raw (time t) = tt
set_value-Stays p key raw (structure entries) = tt
set_value-Stays p key raw (slice is_nil vs) = tt
set_value-Stays p key raw nil_pointer = tt
set_value-Stays p key raw (pointer v) = tt
set_value-Stays p key raw (opaque t is_zero) = tt

Stays-same :
    (f g : Value → Attempt Value)
    → ((v : Value) → f v ≡ g v)
    → (r : Attempt Value) → Stays g r
    → Stays f r
Stays-same f g same (set v) (plain, again) = (plain, same v ∙ again)
Stays-same f g same (failed key problem) stays = tt

overlay-Stays :
    (p : Packages) (prefix : Text) (tags : Tags) (v : Value)
    → is_plain v ≡ true
    → Stays (overlay p prefix tags) (overlay p prefix tags v)
unfolding overlay
overlay-Stays p prefix tags v plain = elim (Bool-cases (has_variable tags)) [
  | inl named ↦ elim (Bool-cases (eq (trim_space (p.getenv (variable prefix tags))) [])) [
    | inl blank ↦ rw (named, blank) (plain, rw (named, blank) refl)
    | inr given ↦
        let key = variable prefix tags in
        let raw = trim_space (p.getenv key) in
        let same : (x : Value) → overlay p prefix tags x ≡ set_value p key raw x =
          λ x. rw (named, given) refl in
        subst (Stays (overlay p prefix tags)) (sym (same v))
          (Stays-same _ _ same (set_value p key raw v) (set_value-Stays p key raw v))
  ]
  | inr unnamed ↦ rw unnamed (plain, rw unnamed refl)
]

apply_value-plain :
    (p : Packages) (prefix : Text) (tags : Tags) (v : Value)
    → is_plain v ≡ true
    → apply_value p prefix tags v ≡ overlay p prefix tags v
unfolding apply_value
apply_value-plain p prefix tags (structure entries) plain = absurd cc
apply_value-plain p prefix tags (duration d) plain = refl
apply_value-plain p prefix tags (text t) plain = refl
apply_value-plain p prefix tags (boolean b) plain = refl
apply_value-plain p prefix tags (int bits n) plain = refl
apply_value-plain p prefix tags (uint bits n) plain = refl
apply_value-plain p prefix tags (float bits x) plain = refl
apply_value-plain p prefix tags (texts ts) plain = refl
apply_value-plain p prefix tags (time t) plain = refl
apply_value-plain p prefix tags (slice is_nil vs) plain = refl
apply_value-plain p prefix tags nil_pointer plain = refl
apply_value-plain p prefix tags (pointer v) plain = refl
apply_value-plain p prefix tags (opaque t is_zero) plain = refl

-- What an application returns stays as it is under a further one.
abbrev Settles : (Value → Attempt Value) → Attempt Value → Type 0
Settles again (set v) = again v ≡ set v
Settles again (failed key problem) = Unit

abbrev AllSettle : (Fields → Attempt Fields) → Attempt Fields → Type 0
AllSettle again (set entries) = again entries ≡ set entries
AllSettle again (failed key problem) = Unit

plain-Settles :
    (p : Packages) (prefix : Text) (tags : Tags) (r : Attempt Value)
    → Stays (overlay p prefix tags) r
    → Settles (apply_value p prefix tags) r
plain-Settles p prefix tags (set v) (plain, again) = apply_value-plain p prefix tags v plain ∙ again
plain-Settles p prefix tags (failed key problem) stays = tt

as_structure-Settles :
    (p : Packages) (prefix : Text) (tags : Tags) (r : Attempt Fields)
    → AllSettle (apply_env p prefix) r
    → Settles (apply_value p prefix tags) (as_structure r)
unfolding apply_value
as_structure-Settles p prefix tags (set entries) again = ap as_structure again
as_structure-Settles p prefix tags (failed key problem) again = tt

-- A field is applied if it is exported.
abbrev apply_if : Bool → Packages → Text → Tags → Value → Attempt Value
apply_if exported p prefix tags v = if not exported then set v else apply_value p prefix tags v

apply_if-Settles :
    (exported : Bool) (p : Packages) (prefix : Text) (tags : Tags) (v : Value)
    → Settles (apply_value p prefix tags) (apply_value p prefix tags v)
    → Settles (apply_if exported p prefix tags) (apply_if exported p prefix tags v)
apply_if-Settles true p prefix tags v settles = settles
apply_if-Settles false p prefix tags v settles = refl

and_rest-AllSettle :
    (p : Packages) (prefix : Text) (tags : Tags) (first : Attempt Value) (rest : Attempt Fields)
    → Settles (apply_if tags.exported p prefix tags) first
    → AllSettle (apply_env p prefix) rest
    → AllSettle (apply_env p prefix) (and_rest tags first rest)
unfolding apply_env
and_rest-AllSettle p prefix tags (failed key problem) rest h hs = tt
and_rest-AllSettle p prefix tags (set v) (failed key problem) h hs = tt
and_rest-AllSettle p prefix tags (set v) (set entries) h hs = λ i. and_rest tags (h i) (hs i)

mutual
  unfolding apply_env

  apply_env-AllSettle :
      (p : Packages) (prefix : Text) (entries : Fields)
      → AllSettle (apply_env p prefix) (apply_env p prefix entries)
  apply_env-AllSettle p prefix no_fields = refl
  apply_env-AllSettle p prefix (field tags v rest) =
      and_rest-AllSettle p prefix tags (apply_if tags.exported p prefix tags v)
        (apply_env p prefix rest)
        (apply_if-Settles tags.exported p prefix tags v (apply_value-Settles p prefix tags v))
        (apply_env-AllSettle p prefix rest)

  apply_value-Settles :
      (p : Packages) (prefix : Text) (tags : Tags) (v : Value)
      → Settles (apply_value p prefix tags) (apply_value p prefix tags v)
  apply_value-Settles p prefix tags (structure entries) =
      as_structure-Settles p prefix tags (apply_env p prefix entries)
        (apply_env-AllSettle p prefix entries)
  apply_value-Settles p prefix tags v =
      plain-Settles p prefix tags _ (overlay-Stays p prefix tags v refl)

-- When ApplyEnv of a configuration returns, applying the same environment to the result changes
-- nothing, whatever the parsers of strconv and time make of the variables.
pub apply_environment-again :
    (p : Packages) (prefix : Text) (before : Fields) {entries : Fields}
    → apply_environment p prefix before ≡ set entries
    → apply_environment p prefix entries ≡ set entries
unfolding apply_environment
apply_environment-again p prefix before {entries} h = elim (Bool-cases (eq prefix [])) [
  | inl off ↦ rw off refl
  | inr on ↦
      let applied : apply_env p prefix before ≡ set entries = rw on at h in
      rw on (subst (AllSettle (apply_env p prefix)) applied (apply_env-AllSettle p prefix before))
]
