-- ===== src/CustomResources/Validation.antt =====
-- mvp/internal/crd/crd.go: which specs are valid.
use kubernetes_style_orchest.Prelude.{
  String, ◌==◌, string_eq, ==_iff, Bool, true, none, some, List, [], ◌∷◌, StringMap, lookup,
  Option-cases, Bool-cases, ◌≡◌, refl, ◌↔◌, inl, inr, arith, Member, here, there, every_cons, ◌||◌,
}
use kubernetes_style_orchest.Api.{Json, CrdSchema, CrdSchemaProperty}
use kubernetes_style_orchest.CustomResources.{
  is_string, is_number, is_boolean, is_object, is_array, type_matches, check_required,
  check_properties, validate_spec,
}

-- The value is of the declared type; a type that the code does not know admits every value.
abbrev pub HasType : String → Json → Type 0
HasType t v =
    (t ≡ "string" → is_string v ≡ true)
    × (t ≡ "integer" → is_number v ≡ true)
    × (t ≡ "number" → is_number v ≡ true)
    × (t ≡ "boolean" → is_boolean v ≡ true)
    × (t ≡ "object" → is_object v ≡ true)
    × (t ≡ "array" → is_array v ≡ true)

type_matches_iff : (t : String) (v : Json) → (type_matches t v ≡ true) ↔ HasType t v
unfolding type_matches
type_matches_iff t v = (
  (λ h. (
    (λ e. (rw e at h)),
    (λ e. (rw e at h)),
    (λ e. (rw e at h)),
    (λ e. (rw e at h)),
    (λ e. (rw e at h)),
    (λ e. (rw e at h)),
  )),
  (λ w. ground (
    arith,
    w.0,
    w.1,
    w.2,
    w.3,
    w.4,
    w.5,
    ==_iff t "string",
    ==_iff t "integer",
    ==_iff t "number",
    ==_iff t "boolean",
    ==_iff t "object",
    ==_iff t "array",
  )),
)

abbrev pub Present : StringMap Json → String → Type 0
Present spec k = (v : Json) × (lookup k spec ≡ some v)

abbrev pub Fits : StringMap Json → String × CrdSchemaProperty → Type 0
Fits spec (k, prop) = (v : Json) → lookup k spec ≡ some v → HasType prop.type v

check_required_iff :
    (required : List String) (spec : StringMap Json)
    → (check_required required spec ≡ none) ↔ ((k : String) → Member k required → Present spec k)
unfolding check_required
check_required_iff [] spec = ((λ h k m. elim m [ ]), (λ h. refl))
check_required_iff (r ∷ rs) spec = elim (Option-cases (lookup r spec)) [
  | inl e ↦
      ((λ h. cc (rw (e, check_required) at h)), (λ h. let (v, f) = h r (here refl) in cc (e, f)))
  | inr (v, e) ↦
      let rest = check_required_iff rs spec in
      (
        (λ h. every_cons (Present spec) r rs (v, e) (rest.0 (rw (e, check_required) at h))),
        (λ h. rw (e, check_required) (rest.1 (λ k m. h k (there m)))),
      )
]

-- The test of one property, on a value that is there.
abbrev admits : CrdSchemaProperty → Json → Bool
admits prop v = prop.type == "" || type_matches prop.type v

untyped : (t : String) (v : Json) → t ≡ "" → HasType t v
unfolding type_matches
untyped t v e = rw e ((type_matches_iff "" v).0 refl)

admits_iff : (prop : CrdSchemaProperty) (v : Json) → (admits prop v ≡ true) ↔ HasType prop.type v
admits_iff prop v = elim (Bool-cases (prop.type == "")) [
  | inl e ↦ rw e ((λ h. untyped prop.type v ((==_iff prop.type "").0 e)), (λ h. refl))
  | inr e ↦ rw e (type_matches_iff prop.type v)
]

check_properties-cons :
    (k : String) (prop : CrdSchemaProperty) (more : StringMap CrdSchemaProperty)
    (spec : StringMap Json) (v : Json)
    → lookup k spec ≡ some v
    → (check_properties ((k, prop) ∷ more) spec ≡ none)
      ↔ ((admits prop v ≡ true) × (check_properties more spec ≡ none))
unfolding check_properties
check_properties-cons k prop more spec v e =
    rw (e, check_properties) ((λ h. ground arith), (λ h. ground arith))

check_properties_iff :
    (properties : StringMap CrdSchemaProperty) (spec : StringMap Json)
    → (check_properties properties spec ≡ none)
      ↔ ((kv : String × CrdSchemaProperty) → Member kv properties → Fits spec kv)
unfolding check_properties
check_properties_iff [] spec = ((λ h k m. elim m [ ]), (λ h. refl))
check_properties_iff ((k, prop) ∷ more) spec =
    let rest = check_properties_iff more spec in
    elim (Option-cases (lookup k spec)) [
      | inl e ↦ (
        (λ h.
            every_cons (Fits spec) (k, prop) more (λ v f. cc (e, f))
              (rest.0 (rw (e, check_properties) at h))),
        (λ h. rw (e, check_properties) (rest.1 (λ x m. h x (there m)))),
      )
      | inr (v, e) ↦
          let one = check_properties-cons k prop more spec v e in
          (
            (λ h.
                let (a, b) = one.0 h in
                every_cons (Fits spec) (k, prop) more (λ u f. fits_value k prop spec v u e f a)
                  (rest.0 b)),
            (λ h. one.1 (
              (admits_iff prop v).1 (h (k, prop) (here refl) v e),
              rest.1 (λ x m. h x (there m)),
            )),
          )
    ]
  where
    fits_value :
        (k : String) (prop : CrdSchemaProperty) (spec : StringMap Json) (v u : Json)
        → lookup k spec ≡ some v
        → lookup k spec ≡ some u
        → admits prop v ≡ true
        → HasType prop.type u
    fits_value k prop spec v u e f a =
        let same : u ≡ v = cc (e, f) in rw same ((admits_iff prop v).0 a)

-- A spec is valid exactly when it has every required property and each property of the schema that
-- it has is of the declared type.
pub validate_spec_iff :
    (schema : CrdSchema) (spec : StringMap Json)
    → (validate_spec schema spec ≡ none) ↔ (
        ((k : String) → Member k schema.required → Present spec k)
        × ((kv : String × CrdSchemaProperty) → Member kv schema.properties → Fits spec kv))
unfolding validate_spec
validate_spec_iff schema spec =
    let required = check_required_iff schema.required spec in
    let properties = check_properties_iff schema.properties spec in
    (
      (λ h. (required.0 (ground arith), properties.0 (ground arith))),
      (λ w. let a = required.1 w.0 in let b = properties.1 w.1 in ground (arith, a, b)),
    )
