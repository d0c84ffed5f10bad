-- ===== src/Webhooks/Answers.antt =====
-- mvp/cmd/mk-sidecar-injector/main.go and mvp/cmd/sample-webhook/main.go: what the answers do to a
-- pod.
use kubernetes_style_orchest.Prelude.{
  any, any_iff, insert, ◌++◌, String, ◌==◌, string_eq, ==_iff, true, false, Bool-cases, Option,
  none, some, List, [], ◌∷◌, value_at, any-append, ◌≡◌, ◌≢◌, refl, sym, ap, ◌∙◌, arith, Member,
  here, there, head_or_tail, inl, inr, ◌↔◌, false≢true,
}
use kubernetes_style_orchest.Prelude.Int.{pos}
use kubernetes_style_orchest.Api.{Pod, Container, AdmissionReviewRequest}
use kubernetes_style_orchest.Webhooks.{
  Parsed, parsed, answer, sidecar_name, sidecar, opted_in, has_sidecar, injected, unlimited,
  limit_answer, inject_into, inject_sidecar, limits_of, validate_mem_limit,
}

has_sidecar-injected : (p : Pod) → has_sidecar (injected p).spec.containers ≡ true
unfolding has_sidecar injected sidecar
has_sidecar-injected p =
    ground (arith, any-append (λ c. c.name == sidecar_name) p.spec.containers (sidecar ∷ []))

unlimited_iff :
    (containers : List Container)
    → (unlimited containers ≡ none)
      ↔ ((c : Container) → Member c containers → value_at c.resources.limits "memory" ≢ "")
unfolding unlimited
unlimited_iff [] = ((λ e c m. elim m [ ]), (λ h. refl))
unlimited_iff (c ∷ cs) = elim (Bool-cases (value_at c.resources.limits "memory" == "")) [
  | inl e ↦ (
    (λ h. cc (rw (e, unlimited) at h)),
    (λ h. absurd (h c (here refl) ((==_iff (value_at c.resources.limits "memory") "").0 e))),
  )
  | inr e ↦ (
    (λ h x m.
        head_or_tail x c cs m
          (λ q.
            rw q
              (λ eq. false≢true (sym e ∙ (==_iff (value_at c.resources.limits "memory") "").1 eq)))
          ((unlimited_iff cs).0 (rw (e, unlimited) at h) x)),
    (λ h. rw e ((unlimited_iff cs).1 (λ x m. h x (there m)))),
  )
]

limit_answer_iff :
    (r : AdmissionReviewRequest) (o : Option Container)
    → ((limit_answer r o).allowed ≡ true) ↔ (o ≡ none)
unfolding limit_answer answer
limit_answer_iff r none = ((λ h. refl), (λ h. refl))
limit_answer_iff r (some c) = ((λ h. absurd (false≢true h)), (λ h. cc h))

-- The pod with the sidecar after its containers, and with the label that says so.
abbrev pub with_sidecar : Pod → Pod
with_sidecar p = record {
  api_version = p.api_version;
  kind = p.kind;
  metadata = record {
    name = p.metadata.name;
    namespace = p.metadata.namespace;
    labels = insert "mk.io/sidecar-injected" "true" p.metadata.labels;
  };
  spec = record {
    containers =
        p.spec.containers
        ++ record {
          name = "mk-sidecar";
          image = "mk-sidecar:dev";
          command = [];
          args = "-mode=server" ∷ "-listen=:9443" ∷ "-upstream=127.0.0.1:8080" ∷ [];
          ports = record { name = "mtls"; container_port = pos 9443; protocol = "TCP" } ∷ [];
          resources = record { requests = []; limits = [] };
        }
          ∷ [];
  };
  status = p.status;
}

injected-with_sidecar : (p : Pod) → injected p ≡ with_sidecar p
unfolding injected sidecar
injected-with_sidecar p = refl

-- The pod asks for a sidecar with its label, and no container of it is one.
abbrev pub WantsSidecar : Pod → Type 0
WantsSidecar p =
    (value_at p.metadata.labels "mk.io/inject-sidecar" ≡ "true")
    × ((c : Container) → Member c p.spec.containers → c.name ≢ "mk-sidecar")

wants-opted_in : (p : Pod) → WantsSidecar p → opted_in p ≡ true
unfolding opted_in
wants-opted_in p w = (==_iff (value_at p.metadata.labels "mk.io/inject-sidecar") "true").1 w.0

wants-has_sidecar : (p : Pod) → WantsSidecar p → has_sidecar p.spec.containers ≡ false
unfolding has_sidecar
wants-has_sidecar p w = elim (Bool-cases (any (λ c. c.name == sidecar_name) p.spec.containers)) [
  | inr e ↦ e
  | inl e ↦
      let (c, m, same) =
        (any_iff (λ c. c.name == sidecar_name) (λ c. c.name ≡ sidecar_name)
            (λ c. ==_iff c.name sidecar_name) p.spec.containers).0
          e in
      absurd (w.1 c m same)
]

module _ (unmarshal : String → Parsed) (marshal : Pod → String) where
  -- A pod that has the sidecar is allowed as it is.
  inject_into-again :
      (r : AdmissionReviewRequest) (p : Pod)
      → has_sidecar p.spec.containers ≡ true
      → inject_into unmarshal marshal r (parsed p) ≡ answer r true "" ""
  unfolding inject_into
  inject_into-again r p h = ground (arith, h)

  inject_sidecar-parsed :
      (r : AdmissionReviewRequest) (p : Pod)
      → r.resource ≡ "pods"
      → unmarshal r.object ≡ parsed p
      → inject_sidecar unmarshal marshal r ≡ inject_into unmarshal marshal r (parsed p)
  unfolding inject_sidecar
  inject_sidecar-parsed r p kind read =
      rw ((==_iff r.resource "pods").1 kind) (ap (inject_into unmarshal marshal r) read)

  -- A pod that asks for a sidecar with its label and has no container mk-sidecar is allowed, with the patch
  -- that encodes the pod with the sidecar after its containers, labelled, and otherwise the same; and
  -- the patched pod, sent again, is allowed without a patch, if the patch decodes to what it encodes.
  pub inject_sidecar-again :
      (r : AdmissionReviewRequest) (p : Pod)
      → r.resource ≡ "pods"
      → unmarshal r.object ≡ parsed p
      → WantsSidecar p
      → unmarshal (marshal (with_sidecar p)) ≡ parsed (with_sidecar p)
      → let first = inject_sidecar unmarshal marshal r in
        (first
          ≡ record { uid = r.uid; allowed = true; message = ""; patch = marshal (with_sidecar p) })
        × (inject_sidecar unmarshal marshal (record r { object = first.patch })
            ≡ record { uid = r.uid; allowed = true; message = ""; patch = "" })
  unfolding inject_into answer
  inject_sidecar-again r p kind read wants law =
      let first : inject_sidecar unmarshal marshal r ≡ answer r true "" (marshal (with_sidecar p)) =
        inject_sidecar-parsed r p kind read
        ∙ ground (arith, wants-opted_in p wants, wants-has_sidecar p wants)
        ∙ ap (λ q. answer r true "" (marshal q)) (injected-with_sidecar p) in
      (
        first,
        ap (λ a. inject_sidecar unmarshal marshal (record r { object = a.patch })) first
            ∙ inject_sidecar-parsed (record r { object = marshal (with_sidecar p) })
                (with_sidecar p) kind law
            ∙ inject_into-again (record r { object = marshal (with_sidecar p) }) (with_sidecar p)
                (ap (λ q. has_sidecar q.spec.containers) (sym (injected-with_sidecar p))
                  ∙ has_sidecar-injected p),
      )

-- The sample webhook allows a pod exactly when each of its containers has a limit of memory.
pub validate_mem_limit_iff :
    (unmarshal : String → Parsed) (r : AdmissionReviewRequest) (p : Pod)
    → r.resource ≡ "pods"
    → unmarshal r.object ≡ parsed p
    → ((validate_mem_limit unmarshal r).allowed ≡ true)
      ↔ ((c : Container) → Member c p.spec.containers → value_at c.resources.limits "memory" ≢ "")
unfolding validate_mem_limit limits_of
validate_mem_limit_iff unmarshal r p kind read =
    rw ((==_iff r.resource "pods").1 kind, read)
      (let way = unlimited_iff p.spec.containers in
        let told = limit_answer_iff r (unlimited p.spec.containers) in
        ((λ h. way.0 (told.0 h)), (λ h. told.1 (way.1 h))))
