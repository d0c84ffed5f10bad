-- ===== src/CustomResources.antt =====
-- mvp/internal/crd/crd.go: the paths of custom resources and the validation of their specs. Go runs
-- over the properties of a schema in any order: which of several errors is reported is left open by
-- the code, and the model takes the order of the list. The texts of the errors are left out.
pub mod Paths
pub mod Validation
use Prim.Native.Char.{Char, code}
use kubernetes_style_orchest.Prelude.{
  String, ◌==◌, string_eq, Bool, true, false, ◌||◌, Option, none, some, List, [], ◌∷◌, StringMap,
  lookup, trim_prefix, nat_beq, if◌then◌else◌,
}
use kubernetes_style_orchest.Api.{
  Json, null, boolean, number, string, array, object, CrdSchema, CrdSchemaProperty,
}

abbrev pub path_prefix : String
path_prefix = "/apis/"

-- One more character in the first part.
unfoldable pub extend : Char → List String → List String
extend c [] = String.◌∷◌ c String.[] ∷ []
extend c (w ∷ ws) = String.◌∷◌ c w ∷ ws

-- `strings.Split(s, "/")`
unfoldable pub split : String → List String
unfolding extend
split String.[] = "" ∷ []
split (String.◌∷◌ c s) =
    let rest = split s in if nat_beq (code c) 47 then "" ∷ rest else extend c rest

pub record CrPath : Type 0 where
  pub group : String
  pub version : String
  pub plural : String
  pub name : String

-- `none` is the error "not a CR path".
unfoldable pub path_of_parts : List String → Option CrPath
path_of_parts [] = none
path_of_parts (g ∷ []) = none
path_of_parts (g ∷ v ∷ []) = none
path_of_parts (g ∷ v ∷ p ∷ []) = some (record { group = g; version = v; plural = p; name = "" })
path_of_parts (g ∷ v ∷ p ∷ n ∷ more) =
    some (record { group = g; version = v; plural = p; name = n })

unfoldable pub parse_path : String → Option CrPath
unfolding trim_prefix split path_of_parts
parse_path p = path_of_parts (split (trim_prefix path_prefix p))

abbrev pub is_string : Json → Bool
is_string (string s) = true
is_string null = false
is_string (boolean b) = false
is_string (number n) = false
is_string (array xs) = false
is_string (object fs) = false

abbrev pub is_number : Json → Bool
is_number (number n) = true
is_number null = false
is_number (boolean b) = false
is_number (string s) = false
is_number (array xs) = false
is_number (object fs) = false

abbrev pub is_boolean : Json → Bool
is_boolean (boolean b) = true
is_boolean null = false
is_boolean (number n) = false
is_boolean (string s) = false
is_boolean (array xs) = false
is_boolean (object fs) = false

abbrev pub is_object : Json → Bool
is_object (object fs) = true
is_object null = false
is_object (boolean b) = false
is_object (number n) = false
is_object (string s) = false
is_object (array xs) = false

abbrev pub is_array : Json → Bool
is_array (array xs) = true
is_array null = false
is_array (boolean b) = false
is_array (number n) = false
is_array (string s) = false
is_array (object fs) = false

unfoldable pub type_matches : String → Json → Bool
type_matches t v =
    if t == "string"
    then is_string v
    else if t == "integer" || t == "number"
    then is_number v
    else if t == "boolean"
    then is_boolean v
    else if t == "object"
    then is_object v
    else if t == "array"
    then is_array v
    else true

pub data SpecError : Type 0 where
  missing : String → SpecError
  wrong_type : String → SpecError

unfoldable pub check_required : List String → StringMap Json → Option SpecError
check_required [] spec = none
check_required (req ∷ more) spec = elim (lookup req spec) [
  | none ↦ some (missing req)
  | some v ↦ check_required more spec
]

unfoldable pub check_properties : StringMap CrdSchemaProperty → StringMap Json → Option SpecError
unfolding type_matches
check_properties [] spec = none
check_properties ((k, prop) ∷ more) spec =
    let rest = check_properties more spec in
    elim (lookup k spec) [
      | none ↦ rest
      | some v ↦
          if prop.type == ""
          then rest
          else if type_matches prop.type v
          then rest
          else some (wrong_type k)
    ]

-- `none` is `nil`.
unfoldable pub validate_spec : CrdSchema → StringMap Json → Option SpecError
unfolding check_required check_properties
validate_spec schema spec = elim (check_required schema.required spec) [
  | some e ↦ some e
  | none ↦ check_properties schema.properties spec
]
