-- ===== src/Tests/CustomResources.antt =====
-- mvp/internal/crd/crd.go: a schema with a required number.
use kubernetes_style_orchest.Prelude.{
  String, string_eq, ◌≡◌, ◌↔◌, refl, none, some, [], ◌∷◌, StringMap, concat, Member,
}
use kubernetes_style_orchest.Api.{CrdSchema, CrdSchemaProperty, Json, number}
use kubernetes_style_orchest.CustomResources.{parse_path, validate_spec, missing}
use kubernetes_style_orchest.CustomResources.Paths.{parse_path-join, collection_path}
use kubernetes_style_orchest.CustomResources.Validation.{validate_spec_iff, Present, Fits}

parse_path-join_example :
    (parse_path (collection_path "mk.io" "v1" "databases")
      ≡ some (record { group = "mk.io"; version = "v1"; plural = "databases"; name = "" }))
    × (parse_path (collection_path "mk.io" "v1" (concat "databases" (concat "/" "main")))
        ≡ some (record { group = "mk.io"; version = "v1"; plural = "databases"; name = "main" }))
parse_path-join_example =
    parse_path-join "mk.io" "v1" "databases" "main" (refl, (refl, (refl, (refl, (refl, tt)))))
      (refl, (refl, tt)) (refl, (refl, (refl, (refl, (refl, (refl, (refl, (refl, (refl, tt)))))))))
      (refl, (refl, (refl, (refl, tt))))

abbrev database_schema : CrdSchema
database_schema = record {
  required = "size" ∷ [];
  properties = ("size", record { type = "integer"; description = "" }) ∷ [];
}

abbrev small : StringMap Json
small = ("size", number "3") ∷ []

validate_spec_iff_example : (validate_spec database_schema small ≡ none) ↔ (
    ((k : String) → Member k database_schema.required → Present small k)
    × ((kv : String × CrdSchemaProperty) → Member kv database_schema.properties → Fits small kv))
validate_spec_iff_example = validate_spec_iff database_schema small

small_is_valid : validate_spec database_schema small ≡ none
unfolding validate_spec
small_is_valid = refl

size_is_required : validate_spec database_schema [] ≡ some (missing "size")
unfolding validate_spec
size_is_required = refl
