-- ===== src/Webhooks.antt =====
-- mvp/cmd/mk-sidecar-injector/main.go and mvp/cmd/sample-webhook/main.go: the answers of the
-- webhooks to a review request that could be decoded. `unmarshal` and `marshal` stand for
-- `encoding/json` on pods. An absent patch is the empty text.
pub mod Answers
use kubernetes_style_orchest.Prelude.{
  String, ◌==◌, string_eq, Bool, true, false, not, Option, none, some, List, [], ◌∷◌, ◌++◌,
  StringMap, insert, value_at, any, concat, find_first, if◌then◌else◌,
}
use kubernetes_style_orchest.Prelude.Int.{ℤ, pos}
use kubernetes_style_orchest.Api.{Pod, Container, AdmissionReviewRequest, AdmissionReviewResponse}

-- A pod, or the text of the error.
pub data Parsed : Type 0 where
  parsed : Pod → Parsed
  unparsed : String → Parsed

unfoldable pub answer : AdmissionReviewRequest → Bool → String → String → AdmissionReviewResponse
answer r allowed message patch = record {
  uid = r.uid;
  allowed = allowed;
  message = message;
  patch = patch;
}

abbrev pub sidecar_name : String
sidecar_name = "mk-sidecar"

unfoldable pub sidecar : Container
sidecar = record {
  name = sidecar_name;
  image = "mk-sidecar:dev";
  command = [];
  args = "-mode=server" ∷ "-listen=:9443" ∷ "-upstream=127.0.0.1:8080" ∷ [];
  ports = record { name = "mtls"; container_port = pos 9443; protocol = "TCP" } ∷ [];
  resources = record { requests = []; limits = [] };
}

unfoldable pub opted_in : Pod → Bool
opted_in p = value_at p.metadata.labels "mk.io/inject-sidecar" == "true"

unfoldable pub has_sidecar : List Container → Bool
has_sidecar containers = any (λ c. c.name == sidecar_name) containers

unfoldable pub injected : Pod → Pod
unfolding sidecar
injected p = record p {
  spec = record p.spec { containers = p.spec.containers ++ sidecar ∷ [] };
  metadata = record p.metadata {
    labels = insert "mk.io/sidecar-injected" "true" p.metadata.labels;
  };
}

-- The first container that has no limit of memory.
unfoldable pub unlimited : List Container → Option Container
unlimited containers = find_first (λ c. value_at c.resources.limits "memory" == "") containers

unfoldable pub limit_answer : AdmissionReviewRequest → Option Container → AdmissionReviewResponse
unfolding answer
limit_answer r none = answer r true "" ""
limit_answer r (some c) =
    answer r false (concat "container " (concat c.name " missing resources.limits.memory")) ""

module _ (unmarshal : String → Parsed) (marshal : Pod → String) where
  unfoldable pub inject_into : AdmissionReviewRequest → Parsed → AdmissionReviewResponse
  unfolding answer opted_in has_sidecar injected
  inject_into r (unparsed e) = answer r false (concat "cannot parse Pod: " e) ""
  inject_into r (parsed p) =
      if not (opted_in p)
      then answer r true "" ""
      else if has_sidecar p.spec.containers
      then answer r true "" ""
      else answer r true "" (marshal (injected p))

  unfoldable pub inject_sidecar : AdmissionReviewRequest → AdmissionReviewResponse
  unfolding inject_into
  inject_sidecar r =
      if r.resource == "pods" then inject_into r (unmarshal r.object) else answer r true "" ""

unfoldable pub limits_of : AdmissionReviewRequest → Parsed → AdmissionReviewResponse
unfolding unlimited limit_answer
limits_of r (unparsed e) = answer r false (concat "cannot parse Pod: " e) ""
limits_of r (parsed p) = limit_answer r (unlimited p.spec.containers)

unfoldable pub validate_mem_limit :
    (String → Parsed) → AdmissionReviewRequest → AdmissionReviewResponse
unfolding limits_of
validate_mem_limit unmarshal r =
    if r.resource == "pods" then limits_of r (unmarshal r.object) else answer r true "" ""
