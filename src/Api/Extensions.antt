-- ===== src/Api/Extensions.antt =====
-- mvp/internal/api/types.go: CustomResourceDefinitions, custom resources, admission webhooks.
use kubernetes_style_orchest.Prelude.{String, Bool, List, StringMap}
use kubernetes_style_orchest.Api.Objects.{Metadata}

-- What `encoding/json` puts into an `interface{}`: a number is a `float64`, kept as its text.
mutual
  pub data Json : Type 0 where
    null : Json
    boolean : Bool → Json
    number : String → Json
    string : String → Json
    array : Items → Json
    object : Fields → Json

  pub data Items : Type 0 where
    no_items : Items
    item : Json → Items → Items

  pub data Fields : Type 0 where
    no_fields : Fields
    field : String → Json → Fields → Fields

pub record CrdSchemaProperty : Type 0 where
  pub type : String
  pub description : String

pub record CrdSchema : Type 0 where
  pub required : List String
  pub properties : StringMap CrdSchemaProperty

pub record CrdNames : Type 0 where
  pub kind : String
  pub plural : String
  pub singular : String

pub record CrdSpec : Type 0 where
  pub group : String
  pub version : String
  pub names : CrdNames
  pub schema : CrdSchema
  pub scope : String

pub record Crd : Type 0 where
  pub api_version : String
  pub kind : String
  pub metadata : Metadata
  pub spec : CrdSpec

pub record CustomResource : Type 0 where
  pub api_version : String
  pub kind : String
  pub metadata : Metadata
  pub spec : StringMap Json
  pub status : StringMap Json

abbrev pub webhook_type_mutating : String
webhook_type_mutating = "Mutating"

abbrev pub webhook_type_validating : String
webhook_type_validating = "Validating"

pub record AdmissionWebhook : Type 0 where
  pub api_version : String
  pub kind : String
  pub metadata : Metadata
  pub type : String
  pub url : String
  pub resources : List String
  pub failure_policy : String

-- The raw JSON of an object is its text.
pub record AdmissionReviewRequest : Type 0 where
  pub uid : String
  pub kind : String
  pub resource : String
  pub namespace : String
  pub name : String
  pub operation : String
  pub object : String

pub record AdmissionReviewResponse : Type 0 where
  pub uid : String
  pub allowed : Bool
  pub message : String
  pub patch : String
