-- ===== src/Tests/Hooks.antt =====
-- mvp/cmd/mk-sidecar-injector/main.go and mvp/cmd/sample-webhook/main.go at concrete inputs.
use kubernetes_style_orchest.Prelude.{
  String, ◌==◌, string_eq, true, false, [], ◌∷◌, value_at, ◌≡◌, ◌≢◌, refl, ◌↔◌, Member,
  if◌then◌else◌,
}
use kubernetes_style_orchest.Api.{Pod, Container, AdmissionReviewRequest}
use kubernetes_style_orchest.Webhooks.{Parsed, parsed, unparsed, inject_sidecar, validate_mem_limit}
use kubernetes_style_orchest.Webhooks.Answers.{
  WantsSidecar, with_sidecar, inject_sidecar-again, validate_mem_limit_iff,
}
use kubernetes_style_orchest.Prelude.{head_or_tail}
use kubernetes_style_orchest.Tests.Data.{told_apart}
use kubernetes_style_orchest.Tests.ServerData.{one_container}

abbrev opted_pod : Pod
opted_pod = record one_container {
  metadata = record one_container.metadata { labels = ("mk.io/inject-sidecar", "true") ∷ [] };
}

-- A codec that tells the two pods apart.
abbrev decode : String → Parsed
decode text =
    if text == "plain"
    then parsed opted_pod
    else if text == "patched"
    then parsed (with_sidecar opted_pod)
    else unparsed "EOF"

abbrev encode : Pod → String
encode p = "patched"

abbrev request : AdmissionReviewRequest
request = record {
  uid = "1";
  kind = "Pod";
  resource = "pods";
  namespace = "default";
  name = "web";
  operation = "CREATE";
  object = "plain";
}

opted_pod-WantsSidecar : WantsSidecar opted_pod
opted_pod-WantsSidecar = (
  refl,
  λ c m. head_or_tail c _ [] m (λ e. rw e (told_apart "main" "mk-sidecar" refl)) (λ k. elim k [ ]),
)

inject_sidecar-again_example :
    (inject_sidecar decode encode request
      ≡ record { uid = "1"; allowed = true; message = ""; patch = "patched" })
    × (inject_sidecar decode encode
          (record request { object = (inject_sidecar decode encode request).patch })
        ≡ record { uid = "1"; allowed = true; message = ""; patch = "" })
inject_sidecar-again_example =
    inject_sidecar-again decode encode request opted_pod refl refl opted_pod-WantsSidecar refl

validate_mem_limit_iff_example : ((validate_mem_limit decode request).allowed ≡ true) ↔ (
    (c : Container)
    → Member c opted_pod.spec.containers
    → value_at c.resources.limits "memory" ≢ "")
validate_mem_limit_iff_example = validate_mem_limit_iff decode request opted_pod refl refl

no_limit_refused : (validate_mem_limit decode request).allowed ≡ false
unfolding validate_mem_limit
no_limit_refused = refl
